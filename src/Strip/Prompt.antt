-- ===== src/Strip/Prompt.antt =====
-- The two regular expressions of strip.go, anchored at the start of a line. Each gives what stands
-- behind the match. No run of theirs can be shortened to let the rest match, since the byte that has
-- to follow is not of the run's class, so the longest runs are the only match.
use sql_ai_tools.Prelude.{
  ℕ, ◌≡◌, refl, Bool, ◌&&◌, ◌||◌, not, [], ◌∷◌, ◌++◌, Option, none, some, ◌>>=◌, Bytes, leb, ◌==◌,
  if◌then◌else◌, arith, Bool-cases, inl, inr, append_assoc,
}

unfoldable pub is_letter : ℕ → Bool
is_letter c = (leb b'A' c && leb c b'Z') || (leb b'a' c && leb c b'z')

-- `[A-Za-z_]`
unfoldable pub is_user_start : ℕ → Bool
unfolding is_letter
is_user_start c = is_letter c || c == b'_'

-- `[A-Za-z0-9_.-]`
unfoldable pub is_user_byte : ℕ → Bool
unfolding is_letter
is_user_byte c =
    is_letter c || ((leb b'0' c && leb c b'9') || (c == b'_' || (c == b'.' || c == b'-')))

-- `[^\s>]`
unfoldable pub is_host_byte : ℕ → Bool
is_host_byte c = not (c == 9 || (c == 10 || (c == 12 || (c == 13 || (c == 32 || c == b'>')))))

-- `[ \t]`
unfoldable pub is_blank : ℕ → Bool
is_blank c = c == 32 || c == 9

-- What stands behind the longest run of a class.
unfoldable pub skip_run : (ℕ → Bool) → Bytes → Bytes
skip_run test [] = []
skip_run test (c ∷ s) = let rest = skip_run test s in if test c then rest else c ∷ s

-- One byte of a class.
unfoldable pub one_byte : (ℕ → Bool) → Bytes → Option Bytes
one_byte test [] = none
one_byte test (c ∷ s) = if test c then some s else none

-- A run of one byte at least.
unfoldable pub some_run : (ℕ → Bool) → Bytes → Option Bytes
unfolding one_byte skip_run
some_run test s = one_byte test s >>= λ r. some (skip_run test r)

unfoldable pub or_same : Bytes → Option Bytes → Bytes
or_same s none = s
or_same s (some r) = r

-- ` ?`
unfoldable pub skip_space : Bytes → Bytes
unfolding one_byte or_same
skip_space s = or_same s (one_byte (λ c. c == 32) s)

-- `(?:[ \t]+[A-Za-z]+)?`
unfoldable pub skip_state : Bytes → Bytes
unfolding some_run or_same is_blank is_letter
skip_state s = or_same s (some_run is_blank s >>= some_run is_letter)

-- `^[A-Za-z_][A-Za-z0-9_.-]*@[^\s>]*(?:[ \t]+[A-Za-z]+)?> ?`
unfoldable pub primary_rest : Bytes → Option Bytes
unfolding one_byte skip_run skip_state skip_space is_user_start is_user_byte is_host_byte
primary_rest line = do
  user ← one_byte is_user_start line
  host ← one_byte (λ c. c == b'@') (skip_run is_user_byte user)
  after ← one_byte (λ c. c == b'>') (skip_state (skip_run is_host_byte host))
  some (skip_space after)

-- `^[ \t]*-> ?`
unfoldable pub continuation_rest : Bytes → Option Bytes
unfolding one_byte skip_run skip_space is_blank
continuation_rest line = do
  dash ← one_byte (λ c. c == b'-') (skip_run is_blank line)
  after ← one_byte (λ c. c == b'>') dash
  some (skip_space after)

-- `rest` ends `line`.
pub record Ends (line rest : Bytes) : Type 0 where
  pub prompt : Bytes
  pub whole : line ≡ prompt ++ rest

Ends-refl : (s : Bytes) → Ends s s
Ends-refl s = record { prompt = []; whole = refl }

Ends-cons : (c : ℕ) (s t : Bytes) → Ends s t → Ends (c ∷ s) t
Ends-cons c s t h = record { prompt = c ∷ h.prompt; whole = cc (h.whole) }

Ends-trans : (s t u : Bytes) → Ends s t → Ends t u → Ends s u
Ends-trans s t u h k = record {
  prompt = h.prompt ++ k.prompt;
  whole = ground (arith, h.whole, k.whole, append_assoc h.prompt k.prompt u);
}

skip_run-Ends : (test : ℕ → Bool) (s : Bytes) → Ends s (skip_run test s)
unfolding skip_run
skip_run-Ends test [] = Ends-refl []
skip_run-Ends test (c ∷ s) = elim (Bool-cases (test c)) [
  | inl e ↦ rw e (Ends-cons c s _ (skip_run-Ends test s))
  | inr e ↦ rw e (Ends-refl (c ∷ s))
]

-- Whatever a matcher leaves of `s` ends `s`.
abbrev Leaves : Bytes → Option Bytes → Type 0
Leaves s o = (r : Bytes) → o ≡ some r → Ends s r

Leaves-end : (s t : Bytes) → Ends s t → Leaves s (some t)
Leaves-end s t e r h = let same : t ≡ r = cc h in rw (← same) e

Leaves-from : (s t : Bytes) (o : Option Bytes) → Ends s t → Leaves t o → Leaves s o
Leaves-from s t o e l r h = Ends-trans s t r e (l r h)

Leaves-bind :
    (s : Bytes) (m : Option Bytes) (f : Bytes → Option Bytes)
    → Leaves s m
    → ((a : Bytes) → Leaves a (f a))
    → Leaves s (m >>= f)
Leaves-bind s none f l k r h = cc
Leaves-bind s (some a) f l k r h = Ends-trans s a r (l a refl) (k a r h)

one_byte-Leaves : (test : ℕ → Bool) (s : Bytes) → Leaves s (one_byte test s)
unfolding one_byte
one_byte-Leaves test [] r h = cc
one_byte-Leaves test (c ∷ s) r h = record { prompt = c ∷ []; whole = ground arith }

some_run-Leaves : (test : ℕ → Bool) (s : Bytes) → Leaves s (some_run test s)
unfolding some_run
some_run-Leaves test s =
    Leaves-bind s (one_byte test s) (λ r. some (skip_run test r)) (one_byte-Leaves test s)
      λ a. Leaves-end a (skip_run test a) (skip_run-Ends test a)

or_same-Ends : (s : Bytes) (o : Option Bytes) → Leaves s o → Ends s (or_same s o)
unfolding or_same
or_same-Ends s none h = Ends-refl s
or_same-Ends s (some r) h = h r refl

skip_space-Ends : (s : Bytes) → Ends s (skip_space s)
unfolding skip_space
skip_space-Ends s = or_same-Ends s (one_byte (λ c. c == 32) s) (one_byte-Leaves (λ c. c == 32) s)

skip_state-Ends : (s : Bytes) → Ends s (skip_state s)
unfolding skip_state
skip_state-Ends s = or_same-Ends s (some_run is_blank s >>= some_run is_letter) (
    Leaves-bind s (some_run is_blank s) (some_run is_letter) (some_run-Leaves is_blank s)
      (some_run-Leaves is_letter))

-- One byte, and then a matcher.
byte_then :
    (test : ℕ → Bool) (s : Bytes) (f : Bytes → Option Bytes)
    → ((a : Bytes) → Leaves a (f a))
    → Leaves s (one_byte test s >>= f)
byte_then test s f = Leaves-bind s (one_byte test s) f (one_byte-Leaves test s)

-- What a prompt leaves of a line is the end of the line.
pub primary_rest-Ends : (line rest : Bytes) → primary_rest line ≡ some rest → Ends line rest
unfolding primary_rest
primary_rest-Ends line = byte_then is_user_start line _ λ user.
    Leaves-from user (skip_run is_user_byte user) _ (skip_run-Ends is_user_byte user) (
      byte_then (λ c. c == b'@') (skip_run is_user_byte user) _
        λ host.
          Leaves-from host (skip_state (skip_run is_host_byte host)) _
            (Ends-trans host (skip_run is_host_byte host) _ (skip_run-Ends is_host_byte host)
              (skip_state-Ends (skip_run is_host_byte host)))
            (byte_then (λ c. c == b'>') (skip_state (skip_run is_host_byte host)) _
              λ after. Leaves-end after (skip_space after) (skip_space-Ends after)))

pub continuation_rest-Ends :
    (line rest : Bytes) → continuation_rest line ≡ some rest → Ends line rest
unfolding continuation_rest
continuation_rest-Ends line =
    Leaves-from line (skip_run is_blank line) _ (skip_run-Ends is_blank line) (
      byte_then (λ c. c == b'-') (skip_run is_blank line) _
        λ dash.
          byte_then (λ c. c == b'>') dash _
            λ after. Leaves-end after (skip_space after) (skip_space-Ends after))
