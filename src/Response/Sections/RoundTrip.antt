-- ===== src/Response/Sections/RoundTrip.antt =====
-- Sections that are written out, one heading after the other, are read back.
use Prim.Native.Char.{Char, code}
use Prim.Native.String.{◌++◌ as append}
use text.Mathlib.TextLemmas.{nil-append, cons-append}
use cuda_fractal_engine_stat.Prelude.{
  Bool, true, false, Option, List, [], ◌∷◌, ◌++◌, String, eq_iff, ◌==◌, ==_refl, if◌then◌else◌,
  is_empty_text, strip, strip_left, is_space, is_line_end, split_lines, ◌≡◌, refl, ◌∙◌, All,
  All-append, arith, Bool-cases, inl, inr,
}
use cuda_fractal_engine_stat.Response.{accepted}
use cuda_fractal_engine_stat.Response.Permissions.{starts_with}
use cuda_fractal_engine_stat.Response.Sections.{
  Sections, contains_fence, before_fence, before_colon, after_colon, skip_blank, all_blank,
  join_lines, join_content, starts_next, take_content, section_body, parse_section, first_of,
  parse_sections, after_title, sections_before_fence, fence,
}

-- A section: its heading, the text on the heading's line and the lines that follow.
pub record Section : Type 0 where
  pub heading : String
  pub first : String
  pub more : List String

-- A heading, its colon, a space and the text.
unfoldable pub labelled : String → String → String
labelled heading first = append heading (String.◌∷◌ ":" (String.◌∷◌ " " first))

unfoldable pub head_line : Section → String
unfolding labelled
head_line s = labelled s.heading s.first

unfoldable pub lines_of : List Section → List String
lines_of [] = []
lines_of (s ∷ rest) = head_line s ∷ (s.more ++ lines_of rest)

unfoldable pub headings_of : List Section → List String
headings_of [] = []
headings_of (s ∷ rest) = s.heading ∷ headings_of rest

unfoldable pub fields_of : List Section → Sections
fields_of [] = []
fields_of (s ∷ rest) = (s.heading, join_lines (s.first ∷ s.more)) ∷ fields_of rest

labelled-cons :
    (c : Char) (h x : String) → labelled (String.◌∷◌ c h) x ≡ String.◌∷◌ c (labelled h x)
unfolding labelled
labelled-cons c h x = cons-append c h _

labelled-nil : (x : String) → labelled "" x ≡ String.◌∷◌ ":" (String.◌∷◌ " " x)
unfolding labelled
labelled-nil x = nil-append _

starts_with-labelled : (h x : String) → starts_with (append h ":") (labelled h x) ≡ true
unfolding starts_with
starts_with-labelled String.[] x = rw (labelled-nil x) refl
starts_with-labelled (String.◌∷◌ c h) x =
    rw (labelled-cons c h x, cons-append, ==_refl (code c)) (starts_with-labelled h x)

unfoldable pub has_colon : String → Bool
has_colon String.[] = false
has_colon (String.◌∷◌ c s) = let rest = has_colon s in if code c == b':' then true else rest

before_colon-labelled : (h x : String) → has_colon h ≡ false → before_colon (labelled h x) ≡ h
unfolding before_colon has_colon
before_colon-labelled String.[] x clean = rw (labelled-nil x) refl
before_colon-labelled (String.◌∷◌ c h) x clean = elim (Bool-cases (code c == b':')) [
  | inl colon ↦ ground arith
  | inr other ↦ rw (labelled-cons c h x, other, before_colon-labelled h x (ground arith)) refl
]

after_colon-labelled :
    (h x : String) → has_colon h ≡ false → after_colon (labelled h x) ≡ String.◌∷◌ " " x
unfolding after_colon has_colon
after_colon-labelled String.[] x clean = rw (labelled-nil x) refl
after_colon-labelled (String.◌∷◌ c h) x clean = elim (Bool-cases (code c == b':')) [
  | inl colon ↦ ground arith
  | inr other ↦ rw (labelled-cons c h x, other, after_colon-labelled h x (ground arith)) refl
]

strip-space : (x : String) → strip (String.◌∷◌ " " x) ≡ strip x
unfolding strip strip_left is_space
strip-space x = refl

unfoldable pub has_line_end : String → Bool
has_line_end String.[] = false
has_line_end (String.◌∷◌ c s) = let rest = has_line_end s in if is_line_end c then true else rest

split_lines-feed : (t : String) → split_lines (String.◌∷◌ "\n" t) ≡ "" ∷ split_lines t
unfolding split_lines is_line_end
split_lines-feed t = refl

return_ends : (c : Char) → is_line_end c ≡ false → (code c == 13) ≡ false
unfolding is_line_end
return_ends c clean = ground arith

-- A line of a text, up to its line feed.
split_lines-line :
    (line t : String)
    → has_line_end line ≡ false
    → split_lines (append line (String.◌∷◌ "\n" t)) ≡ line ∷ split_lines t
unfolding split_lines has_line_end
split_lines-line String.[] t clean = rw nil-append (split_lines-feed t)
split_lines-line (String.◌∷◌ c s) t clean = elim (Bool-cases (is_line_end c)) [
  | inl ends ↦ ground arith
  | inr other ↦
      rw (cons-append, return_ends c other, other, split_lines-line s t (ground arith)) refl
]

-- The last line of a text.
split_lines-last :
    (c : Char) (s : String)
    → has_line_end (String.◌∷◌ c s) ≡ false
    → split_lines (String.◌∷◌ c s) ≡ String.◌∷◌ c s ∷ []
unfolding split_lines has_line_end
split_lines-last c String.[] clean = elim (Bool-cases (is_line_end c)) [
  | inl ends ↦ ground arith
  | inr other ↦ rw (return_ends c other, other) refl
]
split_lines-last c (String.◌∷◌ d s) clean = elim (Bool-cases (is_line_end c)) [
  | inl ends ↦ ground arith
  | inr other ↦ rw (return_ends c other, other, split_lines-last d s (ground arith)) refl
]

-- A line that is written out: stripped, not empty, and one line.
pub record IsLine (line : String) : Type 0 where
  pub clean : has_line_end line ≡ false
  pub stripped : strip line ≡ line
  pub filled : is_empty_text line ≡ false

split_lines-only : (line : String) → IsLine line → split_lines line ≡ line ∷ []
split_lines-only String.[] l = cc (l.filled)
split_lines-only (String.◌∷◌ c s) l = split_lines-last c s l.clean

split_lines-join_lines :
    (line : String) (rest : List String)
    → IsLine line
    → All IsLine rest
    → split_lines (join_lines (line ∷ rest)) ≡ line ∷ rest
unfolding join_lines
split_lines-join_lines line [] l ls = split_lines-only line l
split_lines-join_lines line (next ∷ rest) l ls =
    split_lines-line line (join_lines (next ∷ rest)) l.clean
    ∙ rw (split_lines-join_lines next rest ls.0 ls.1) refl

skip_blank-line :
    (line : String) (rest : List String) → IsLine line → skip_blank (line ∷ rest) ≡ line ∷ rest
unfolding skip_blank
skip_blank-line line rest l = rw (l.stripped, l.filled) refl

before_fence-whole : (s : String) → contains_fence s ≡ false → before_fence s ≡ s
unfolding before_fence contains_fence
before_fence-whole String.[] clean = refl
before_fence-whole (String.◌∷◌ c s) clean = elim (Bool-cases (starts_with fence (String.◌∷◌ c s))) [
  | inl fenced ↦ ground arith
  | inr other ↦ rw (other, before_fence-whole s (ground arith)) refl
]

-- The text lines of a section end at the next heading, or at the end.
Ends : Option String → List String → Type 0
Ends next [] = Unit
Ends next (line ∷ rest) = starts_next next (strip line) ≡ true

take_content-lines :
    (next : Option String) (more rest : List String)
    → All IsLine more
    → All (λ line. starts_next next line ≡ false) more
    → Ends next rest
    → take_content next (more ++ rest) ≡ (more, rest)
unfolding take_content Ends
take_content-lines next [] [] ls apart ends = refl
take_content-lines next [] (line ∷ rest) ls apart ends = rw ends refl
take_content-lines next (line ∷ more) rest ls apart ends =
    rw (ls.0.stripped, apart.0, ls.0.filled, take_content-lines next more rest ls.1 apart.1 ends)
      refl

-- A section as it may be written before the next heading, if there is one: the heading has no colon,
-- and no further line looks like the next heading.
pub record IsWritten (next : Option String) (s : Section) : Type 0 where
  pub heading_clean : has_colon s.heading ≡ false
  pub head : IsLine (head_line s)
  pub first : IsLine s.first
  pub more : All IsLine s.more
  pub apart : All (λ line. starts_next next line ≡ false) s.more

abbrev pub AllWritten : List Section → Type 0
AllWritten [] = Unit
AllWritten (s ∷ rest) = IsWritten (first_of (headings_of rest)) s × AllWritten rest

append_filled :
    (line rest : String) → is_empty_text line ≡ false → is_empty_text (append line rest) ≡ false
append_filled String.[] rest h = cc
append_filled (String.◌∷◌ c s) rest h = rw cons-append refl

join_lines_filled :
    (line : String) (rest : List String)
    → IsLine line
    → is_empty_text (join_lines (line ∷ rest)) ≡ false
unfolding join_lines
join_lines_filled line [] l = l.filled
join_lines_filled line (next ∷ rest) l = append_filled line _ l.filled

section_body-lines :
    (heading first : String) (more rest : List String)
    → IsLine first
    → section_body heading first (more, rest) ≡ accepted (join_lines (first ∷ more), rest)
unfolding section_body join_content
section_body-lines heading first more rest l = rw (l.filled, join_lines_filled first more l) refl

lines_of-Ends :
    (sections : List Section)
    → AllWritten sections
    → Ends (first_of (headings_of sections)) (lines_of sections)
unfolding Ends lines_of headings_of head_line starts_next
lines_of-Ends [] w = tt
lines_of-Ends (s ∷ rest) (w, ws) =
    let stripped : strip (labelled s.heading s.first) ≡ labelled s.heading s.first =
      w.head.stripped in
    rw stripped (starts_with-labelled s.heading s.first)

parse_section-written :
    (next : Option String) (s : Section) (rest : List String)
    → IsWritten next s
    → Ends next rest
    → parse_section s.heading next (head_line s ∷ (s.more ++ rest))
      ≡ accepted (join_lines (s.first ∷ s.more), rest)
unfolding parse_section
parse_section-written next s rest w ends =
    let head : strip (head_line s) ≡ labelled s.heading s.first =
      w.head.stripped ∙ unfold head_line in refl in
    let first : strip (String.◌∷◌ " " s.first) ≡ s.first = strip-space s.first ∙ w.first.stripped in
    rw
      (
        head,
        starts_with-labelled s.heading s.first,
        before_colon-labelled s.heading s.first w.heading_clean,
        (eq_iff s.heading s.heading).1 refl,
        after_colon-labelled s.heading s.first w.heading_clean,
        first,
        take_content-lines next s.more rest w.more w.apart ends,
      )
      (section_body-lines s.heading s.first s.more rest w.first)

parse_sections-lines_of :
    (sections : List Section)
    → AllWritten sections
    → parse_sections (headings_of sections) (lines_of sections) ≡ accepted (fields_of sections)
unfolding parse_sections headings_of lines_of fields_of all_blank
parse_sections-lines_of [] w = refl
parse_sections-lines_of (s ∷ rest) (w, ws) =
    rw
      (
        skip_blank-line (head_line s) (s.more ++ lines_of rest) w.head,
        parse_section-written (first_of (headings_of rest)) s (lines_of rest) w
            (lines_of-Ends rest ws),
        parse_sections-lines_of rest ws,
      )
      refl

lines_of-IsLine : (sections : List Section) → AllWritten sections → All IsLine (lines_of sections)
unfolding lines_of
lines_of-IsLine [] w = tt
lines_of-IsLine (s ∷ rest) (w, ws) =
    (w.head, All-append IsLine s.more (lines_of rest) w.more (lines_of-IsLine rest ws))

-- A text of a title line and sections, each a heading, a colon, a space and its lines, is read back
-- to those headings and texts, where the text has no code fence, each line is stripped, not empty and
-- one line, no heading has a colon, and no line of a section looks like the heading after it.
pub sections_before_fence-written :
    (title : String) (sections : List Section)
    → IsLine title
    → AllWritten sections
    → contains_fence (join_lines (title ∷ lines_of sections)) ≡ false
    → sections_before_fence (join_lines (title ∷ lines_of sections)) (headings_of sections)
      ≡ accepted (fields_of sections)
unfolding sections_before_fence after_title
sections_before_fence-written title sections l w clean =
    rw
      (
        before_fence-whole (join_lines (title ∷ lines_of sections)) clean,
        split_lines-join_lines title (lines_of sections) l (lines_of-IsLine sections w),
        skip_blank-line title (lines_of sections) l,
      )
      (parse_sections-lines_of sections w)
