-- ===== src/Strip.antt =====
-- internal/sqlformat/strip.go: the removal of shell prompts from pasted input, and the map from
-- offsets in the result back to the input. Texts are bytes; offsets from 0 on.
pub mod Prompt
pub mod Lines
pub mod Offsets
use sql_ai_tools.Prelude.{
  ℕ, ◌+◌, ◌-◌, Bool, true, false, List, [], ◌∷◌, ◌++◌, Option, none, some, Bytes, length, ltb, leb,
  ◌==◌, if◌then◌else◌,
}
use Prompt.{primary_rest, continuation_rest}
use Lines.{split_after}

-- `stripSegment`.
pub record Segment : Type 0 where
  pub stripped_start : ℕ
  pub cum_delta : ℕ

-- `StripResult`.
pub record StripResult : Type 0 where
  pub stripped : Bytes
  pub removed : Bool
  pub segments : List Segment

-- The variables of the loop.
pub record StripState : Type 0 where
  pub buf : Bytes
  pub segments : List Segment
  pub cum_delta : ℕ
  pub seen_primary : Bool

abbrev pub start : StripState
start = record { buf = []; segments = []; cum_delta = 0; seen_primary = false }

-- `recordSegment` with the length of the prompt, then the rest of the line: `rest` is what stands
-- behind the match, so the prompt has `len(line) - len(rest)` bytes.
unfoldable pub cut_prompt : StripState → Bytes → Bytes → StripState
cut_prompt s line rest =
    let delta = s.cum_delta + (length line - length rest) in
    record s {
      buf = s.buf ++ rest;
      segments = s.segments ++ record { stripped_start = length s.buf; cum_delta = delta } ∷ [];
      cum_delta = delta;
    }

unfoldable pub keep_line : StripState → Bytes → StripState
keep_line s line = record s { buf = s.buf ++ line }

unfoldable pub continuation_line : StripState → Bytes → Option Bytes → StripState
unfolding cut_prompt keep_line
continuation_line s line none = keep_line s line
continuation_line s line (some rest) = cut_prompt s line rest

unfoldable pub other_line : StripState → Bytes → StripState
unfolding continuation_line
other_line s line =
    if s.seen_primary then continuation_line s line (continuation_rest line) else keep_line s line

unfoldable pub primary_line : StripState → Bytes → Option Bytes → StripState
unfolding other_line cut_prompt
primary_line s line none = other_line s line
primary_line s line (some rest) = cut_prompt (record s { seen_primary = true }) line rest

-- The body of the loop.
unfoldable pub strip_line : StripState → Bytes → StripState
unfolding primary_line
strip_line s line = primary_line s line (primary_rest line)

unfoldable pub strip_lines : StripState → List Bytes → StripState
unfolding strip_line
strip_lines s [] = s
strip_lines s (line ∷ lines) = strip_lines (strip_line s line) lines

unfoldable pub some_segment : List Segment → Bool
some_segment [] = false
some_segment (s ∷ rest) = true

-- `StripShellPromptsWithMap`. The early return on empty input gives what the loop gives.
unfoldable pub strip_shell_prompts_with_map : Bytes → StripResult
unfolding strip_lines split_after some_segment
strip_shell_prompts_with_map [] = record { stripped = []; removed = false; segments = [] }
strip_shell_prompts_with_map (c ∷ sql) =
    let s = strip_lines start (split_after (c ∷ sql)) in
    record { stripped = s.buf; removed = some_segment s.segments; segments = s.segments }

-- `StripShellPrompts`.
unfoldable pub strip_shell_prompts : Bytes → Bytes
unfolding strip_shell_prompts_with_map
strip_shell_prompts sql = (strip_shell_prompts_with_map sql).stripped

-- `sort.Search` for the first segment that starts behind the offset, and the delta of the one before
-- it; `delta` is the delta so far.
unfoldable pub delta_at : ℕ → List Segment → ℕ → ℕ
delta_at delta [] offset = delta
delta_at delta (s ∷ rest) offset =
    let later = delta_at s.cum_delta rest offset in
    if ltb offset s.stripped_start then delta else later

unfoldable pub clamp : ℕ → ℕ → ℕ
clamp offset limit = if ltb limit offset then limit else offset

-- `Translate`, at an offset from 0 on.
unfoldable pub translate : StripResult → ℕ → ℕ
unfolding clamp delta_at
translate r offset = let at = clamp offset (length r.stripped) in at + delta_at 0 r.segments at
