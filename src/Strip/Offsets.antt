-- ===== src/Strip/Offsets.antt =====
-- The offset map of strip.go is right: it names the byte of the input that a byte of the result is.
use mathlib.Core.Path.{subst}
use native.Mathlib.Decide.{dec_lt}
use native.Mathlib.Nat.{zero-add, suc-add}
use sql_ai_tools.Prelude.{
  ℕ, zero, suc, ◌+◌, ◌-◌, ◌≤◌, ◌<◌, ◌≡◌, ◌≢◌, refl, sym, ap, ◌∙◌, Bool, true, false, List, [], ◌∷◌,
  ◌++◌, append_assoc, append-nil, Option, none, some, Bytes, arith, length, length-append,
  get_elem?, if◌then◌else◌, All, All-append,
}
use sql_ai_tools.Strip.Prompt.{
  Ends, primary_rest, continuation_rest, primary_rest-Ends, continuation_rest-Ends,
}
use sql_ai_tools.Strip.Lines.{split_after, concat, concat-split_after}
use sql_ai_tools.Strip.{
  Segment, some_segment, StripState, start, StripResult, cut_prompt, keep_line, continuation_line,
  other_line, primary_line, strip_line, strip_lines, strip_shell_prompts_with_map, delta_at,
  translate,
}

get_elem?-append_left : (s t : Bytes) (i : ℕ) → i < length s → get_elem? (s ++ t) i ≡ get_elem? s i
get_elem?-append_left [] t i h = absurd (omega arith)
get_elem?-append_left (c ∷ s) t zero h = refl
get_elem?-append_left (c ∷ s) t (suc i) h = get_elem?-append_left s t i (omega arith)

get_elem?-append_right : (s t : Bytes) (i : ℕ) → get_elem? (s ++ t) (length s + i) ≡ get_elem? t i
get_elem?-append_right [] t i = rw (zero-add)
get_elem?-append_right (c ∷ s) t i = rw suc-add (get_elem?-append_right s t i)

get_elem?-lt : (s : Bytes) (i : ℕ) → i < length s → (c : ℕ) × (get_elem? s i ≡ some c)
get_elem?-lt [] i h = absurd (omega arith)
get_elem?-lt (c ∷ s) zero h = (c, refl)
get_elem?-lt (c ∷ s) (suc i) h = get_elem?-lt s i (omega arith)

get_elem?-append_some :
    (s t : Bytes) (i c : ℕ) → get_elem? s i ≡ some c → get_elem? (s ++ t) i ≡ some c
get_elem?-append_some [] t i c h = cc
get_elem?-append_some (b ∷ s) t zero c h = h
get_elem?-append_some (b ∷ s) t (suc i) c h = get_elem?-append_some s t i c h

-- A byte that was mapped stays where it was, whatever is added behind.
mapped_before :
    (buf more read line : Bytes) (i k : ℕ)
    → i < length buf
    → get_elem? buf i ≡ get_elem? read k
    → get_elem? (buf ++ more) i ≡ get_elem? (read ++ line) k
mapped_before buf more read line i k h e =
    let (c, at) = get_elem?-lt buf i h in
    get_elem?-append_some buf more i c at ∙ sym (get_elem?-append_some read line k c (sym e ∙ at))

-- A byte of the kept end of a line is the byte as far behind the prompt in the input.
mapped_after :
    (buf rest read prompt : Bytes) (i d : ℕ)
    → length buf ≤ i
    → length buf + d ≡ length read + length prompt
    → get_elem? (buf ++ rest) i ≡ get_elem? (read ++ (prompt ++ rest)) (i + d)
mapped_after buf rest read prompt i d h e =
    let j = i - length buf in
    let left : i ≡ length buf + j = omega arith in
    let right : i + d ≡ length read + (length prompt + j) = omega arith in
    rw
      (
        right,
        get_elem?-append_right read (prompt ++ rest) (length prompt + j),
        get_elem?-append_right prompt rest j,
      )
      (ap (λ k. get_elem? (buf ++ rest) k) left ∙ get_elem?-append_right buf rest j)

-- A segment that starts behind the offset changes nothing; one that starts at or before it, behind
-- others that do, decides.
delta_at-before :
    (segs : List Segment) (n c i d : ℕ)
    → i < n
    → delta_at d (segs ++ record { stripped_start = n; cum_delta = c } ∷ []) i ≡ delta_at d segs i
unfolding delta_at
delta_at-before [] n c i d h = ground arith
delta_at-before (s ∷ segs) n c i d h = ground (arith, delta_at-before segs n c i s.cum_delta h)

delta_at-after :
    (segs : List Segment) (n c i d : ℕ)
    → n ≤ i
    → All (λ s. s.stripped_start ≤ i) segs
    → delta_at d (segs ++ record { stripped_start = n; cum_delta = c } ∷ []) i ≡ c
unfolding delta_at
delta_at-after [] n c i d h a = ground arith
delta_at-after (s ∷ segs) n c i d h a =
    ground (arith, delta_at-after segs n c i s.cum_delta h a.1, a.0)

some_segment-append : (segs : List Segment) (g : Segment) → some_segment (segs ++ g ∷ []) ≢ false
unfolding some_segment
some_segment-append [] g h = cc
some_segment-append (s ∷ segs) g h = cc

-- The state after the lines whose text is `read`.
pub record Maps (read : Bytes) (s : StripState) : Type 0 where
  pub lengths : length read ≡ length s.buf + s.cum_delta
  pub starts : All (λ g. g.stripped_start ≤ length s.buf) s.segments
  pub latest : (i : ℕ) → length s.buf ≤ i → delta_at 0 s.segments i ≡ s.cum_delta
  pub bytes :
      (i : ℕ) → i < length s.buf → get_elem? s.buf i ≡ get_elem? read (i + delta_at 0 s.segments i)
  pub plain : some_segment s.segments ≡ false → s.buf ≡ read

All-grow :
    (segs : List Segment) (m n : ℕ)
    → m ≤ n
    → All (λ g. g.stripped_start ≤ m) segs
    → All (λ g. g.stripped_start ≤ n) segs
All-grow [] m n h a = tt
All-grow (g ∷ segs) m n h a = (omega (arith, a.0), All-grow segs m n h a.1)

module _ (read : Bytes) (s : StripState) (m : Maps read s) where
  keep_line-Maps : (line : Bytes) → Maps (read ++ line) (keep_line s line)
  unfolding keep_line
  keep_line-Maps line = record {
    lengths = omega (arith, length-append {0} read line, length-append {0} s.buf line, m.lengths);
    starts =
        All-grow s.segments (length s.buf) (length (s.buf ++ line))
          (omega (arith, length-append {0} s.buf line)) m.starts;
    latest = λ i h. m.latest i (omega (arith, length-append {0} s.buf line));
    bytes = λ i h. elim (dec_lt i (length s.buf)) [
      | yes lt ↦ mapped_before s.buf line read line i _ lt (m.bytes i lt)
      | no ge ↦
          rw (m.latest i (omega arith))
            (mapped_after s.buf line read [] i s.cum_delta (omega arith) (omega (arith, m.lengths)))
    ];
    plain = λ h. ap (λ t. t ++ line) (m.plain h);
  }

  module _ (line rest : Bytes) (e : Ends line rest) where
    prompt_length : length line - length rest ≡ length e.prompt
    prompt_length = omega (arith, ap (λ l. length l) e.whole, length-append {0} e.prompt rest)

    cut_prompt-Maps : Maps (read ++ line) (cut_prompt s line rest)
    unfolding cut_prompt
    cut_prompt-Maps = record {
      lengths = omega (
        arith,
        length-append {0} read line,
        length-append {0} s.buf rest,
        m.lengths,
        prompt_length,
        ap (λ l. length l) e.whole,
        length-append {0} e.prompt rest,
      );
      starts =
          All-append (λ g. g.stripped_start ≤ length (s.buf ++ rest)) s.segments _
            (All-grow s.segments (length s.buf) (length (s.buf ++ rest))
              (omega (arith, length-append {0} s.buf rest)) m.starts)
            (omega (arith, length-append {0} s.buf rest), tt);
      latest = λ i h.
          delta_at-after s.segments (length s.buf) _ i 0
            (omega (arith, length-append {0} s.buf rest))
            (All-grow s.segments (length s.buf) i (omega (arith, length-append {0} s.buf rest))
              m.starts);
      bytes = λ i h. elim (dec_lt i (length s.buf)) [
        | yes lt ↦
            rw (delta_at-before s.segments (length s.buf) _ i 0 lt)
              (mapped_before s.buf rest read line i _ lt (m.bytes i lt))
        | no ge ↦
            rw
              (delta_at-after s.segments (length s.buf) _ i 0 (omega arith)
                (All-grow s.segments (length s.buf) i (omega arith) m.starts))
              (moved i (omega arith))
      ];
      plain = λ h. absurd (some_segment-append s.segments _ h);
    }
      where
        moved :
            (i : ℕ)
            → length s.buf ≤ i
            → get_elem? (s.buf ++ rest) i
              ≡ get_elem? (read ++ line) (i + (s.cum_delta + (length line - length rest)))
        moved i ge = rw (prompt_length) (
            rw (e.whole) (
              mapped_after s.buf rest read e.prompt i (s.cum_delta + length e.prompt) ge
                (omega (arith, m.lengths))))

seen : {read : Bytes} (s : StripState) → Maps read s → Maps read (record s { seen_primary = true })
seen s m = record {
  lengths = m.lengths;
  starts = m.starts;
  latest = m.latest;
  bytes = m.bytes;
  plain = m.plain;
}

strip_line-Maps :
    (read : Bytes) (s : StripState) (line : Bytes)
    → Maps read s
    → Maps (read ++ line) (strip_line s line)
unfolding strip_line
strip_line-Maps read s line m = by_primary (primary_rest line) (primary_rest-Ends line)
  where
    by_continuation :
        (o : Option Bytes)
        → ((r : Bytes) → o ≡ some r → Ends line r)
        → Maps (read ++ line) (continuation_line s line o)
    by_continuation none e = unfold continuation_line in keep_line-Maps read s m line
    by_continuation (some rest) e =
        unfold continuation_line in cut_prompt-Maps read s m line rest (e rest refl)

    by_seen :
        (b : Bool)
        → Maps
            (read ++ line)
            (if b then continuation_line s line (continuation_rest line) else keep_line s line)
    by_seen true = by_continuation (continuation_rest line) (continuation_rest-Ends line)
    by_seen false = keep_line-Maps read s m line

    by_primary :
        (o : Option Bytes)
        → ((r : Bytes) → o ≡ some r → Ends line r)
        → Maps (read ++ line) (primary_line s line o)
    by_primary none e = unfold primary_line other_line in by_seen s.seen_primary
    by_primary (some rest) e =
        unfold primary_line in
        cut_prompt-Maps read (record s { seen_primary = true }) (seen s m) line rest (e rest refl)

strip_lines-Maps :
    (read : Bytes) (s : StripState) (lines : List Bytes)
    → Maps read s
    → Maps (read ++ concat lines) (strip_lines s lines)
unfolding strip_lines concat
strip_lines-Maps read s [] m = rw append-nil m
strip_lines-Maps read s (line ∷ lines) m =
    rw (← append_assoc)
      (strip_lines-Maps (read ++ line) (strip_line s line) lines (strip_line-Maps read s line m))

start-Maps : Maps [] start
start-Maps = record {
  lengths = omega arith;
  starts = tt;
  latest = λ i h. unfold delta_at in refl;
  bytes = λ i h. absurd (omega arith);
  plain = λ h. refl;
}

-- What the offset map of a result promises of the input.
pub record IsFaithful (sql : Bytes) (r : StripResult) : Type 0 where
  pub same_byte :
      (i : ℕ) → i < length r.stripped → get_elem? r.stripped i ≡ get_elem? sql (translate r i)
  pub end_to_end : (i : ℕ) → length r.stripped ≤ i → translate r i ≡ length sql
  pub untouched :
      r.removed ≡ false → (r.stripped ≡ sql) × ((i : ℕ) → i ≤ length sql → translate r i ≡ i)

faithful :
    (sql : Bytes) (s : StripState)
    → Maps sql s
    → IsFaithful sql
        (record { stripped = s.buf; removed = some_segment s.segments; segments = s.segments })
unfolding translate
faithful sql s m = record {
  same_byte = λ i h. ground (arith, m.bytes i h);
  end_to_end = λ i h. ground (arith, m.latest (length s.buf) (omega arith), m.lengths);
  untouched = λ h. (m.plain h, λ i le. identity i h le);
}
  where
    nothing : (segs : List Segment) → some_segment segs ≡ false → (i d : ℕ) → delta_at d segs i ≡ d
    nothing [] h i d = unfold delta_at in refl
    nothing (g ∷ segs) h i d = absurd (unfold some_segment in cc)

    identity :
        (i : ℕ)
        → some_segment s.segments ≡ false
        → i ≤ length sql
        → translate
            (record { stripped = s.buf; removed = some_segment s.segments; segments = s.segments })
            i
          ≡ i
    identity i h le =
        let no_delta : (d : ℕ) → delta_at d s.segments i ≡ d = nothing s.segments h i in
        ground (arith, ap (λ t. length t) (m.plain h), no_delta 0)

-- Every byte of the stripped text is the byte of the input at the translated offset, offsets at and
-- past the end go to the end of the input, and where nothing was removed the text is the input and
-- the translation the identity.
pub strip-IsFaithful : (sql : Bytes) → IsFaithful sql (strip_shell_prompts_with_map sql)
unfolding strip_shell_prompts_with_map
strip-IsFaithful [] = faithful [] start start-Maps
strip-IsFaithful (c ∷ sql) = faithful (c ∷ sql) (strip_lines start (split_after (c ∷ sql))) (
    subst (λ t. Maps t (strip_lines start (split_after (c ∷ sql)))) (concat-split_after (c ∷ sql))
      (strip_lines-Maps [] start (split_after (c ∷ sql)) start-Maps))
