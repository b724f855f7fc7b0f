-- ===== src/Response/Sections.antt =====
-- The ordered sections of a response: `_sections_before_fence` of
-- src/cuda_fractal_state_tool/research_protocol.py.
pub mod RoundTrip
use Prim.Native.Char.{Char, code}
use Prim.Native.String.{◌++◌ as append}
use cuda_fractal_engine_stat.Prelude.{
  Bool, true, false, not, ◌&&◌, Option, none, some, List, [], ◌∷◌, String, str_eq, ◌==◌,
  if◌then◌else◌, is_empty_text, strip, split_lines,
}
use cuda_fractal_engine_stat.Response.{
  Checked, accepted, rejected, ◌>>=◌, demand, response_empty, section_missing, section_relabelled,
  section_empty, text_outside_sections, field_missing,
}
use cuda_fractal_engine_stat.Response.Permissions.{starts_with}

-- A `dict` from headings to their texts.
abbrev pub Sections : Type 0
Sections = List (String × String)

abbrev pub fence : String
fence = "```"

-- `"```" in text`.
unfoldable pub contains_fence : String → Bool
contains_fence String.[] = false
contains_fence (String.◌∷◌ c s) =
    let rest = contains_fence s in if starts_with fence (String.◌∷◌ c s) then true else rest

-- `text.split("```", 1)[0]`.
unfoldable pub before_fence : String → String
before_fence String.[] = String.[]
before_fence (String.◌∷◌ c s) =
    let rest = before_fence s in
    if starts_with fence (String.◌∷◌ c s) then String.[] else String.◌∷◌ c rest

-- `line.split(":", 1)[0]`.
unfoldable pub before_colon : String → String
before_colon String.[] = String.[]
before_colon (String.◌∷◌ c s) =
    let rest = before_colon s in if code c == b':' then String.[] else String.◌∷◌ c rest

-- `line.split(":", 1)[1]` of a line that has a colon.
unfoldable pub after_colon : String → String
after_colon String.[] = String.[]
after_colon (String.◌∷◌ c s) = let rest = after_colon s in if code c == b':' then s else rest

abbrev pub is_blank : String → Bool
is_blank line = is_empty_text (strip line)

unfoldable pub skip_blank : List String → List String
skip_blank [] = []
skip_blank (line ∷ rest) =
    let later = skip_blank rest in if is_blank line then later else line ∷ rest

all_blank : List String → Bool
all_blank [] = true
all_blank (line ∷ rest) = is_blank line && all_blank rest

-- `"\n".join(lines)`.
unfoldable pub join_lines : List String → String
join_lines [] = ""
join_lines (line ∷ []) = line
join_lines (line ∷ next ∷ rest) = append line (String.◌∷◌ "\n" (join_lines (next ∷ rest)))

-- The first text only if it is not empty; the others are not.
join_content : String → List String → String
unfolding join_lines
join_content first content =
    if is_empty_text first then join_lines content else join_lines (first ∷ content)

unfoldable pub starts_next : Option String → String → Bool
starts_next none stripped = false
starts_next (some next) stripped = starts_with (append next ":") stripped

-- The stripped lines of a section's text that are not blank, and the lines from the next heading on.
unfoldable pub take_content : Option String → List String → List String × List String
unfolding starts_next
take_content next [] = ([], [])
take_content next (line ∷ rest) =
    let stripped = strip line in
    let (content, left) = take_content next rest in
    if starts_next next stripped
    then ([], line ∷ rest)
    else if is_empty_text stripped
    then (content, left)
    else (stripped ∷ content, left)

section_body : String → String → List String × List String → Checked (String × List String)
unfolding join_content
section_body heading first (content, left) =
    let joined = join_content first content in
    if is_empty_text joined then rejected (section_empty heading) else accepted (joined, left)

-- One round of the loop over the headings, at a line that is not blank.
unfoldable pub parse_section : String → Option String → List String → Checked (String × List String)
unfolding section_body
parse_section heading next [] = rejected (section_missing heading)
parse_section heading next (line ∷ rest) =
    let stripped = strip line in
    if not (starts_with (append heading ":") stripped)
    then rejected (section_missing heading)
    else if not (str_eq (before_colon stripped) heading)
    then rejected (section_relabelled heading)
    else section_body heading (strip (after_colon stripped)) (take_content next rest)

abbrev pub first_of : List String → Option String
first_of [] = none
first_of (heading ∷ rest) = some heading

unfoldable pub parse_sections : List String → List String → Checked Sections
unfolding all_blank
parse_sections [] lines = do _ ← demand (all_blank lines) text_outside_sections; accepted []
parse_sections (heading ∷ headings) lines = do
  (body, left) ← parse_section heading (first_of headings) (skip_blank lines)
  others ← parse_sections headings left
  accepted ((heading, body) ∷ others)

-- The sections after the first line that is not blank.
after_title : List String → List String → Checked Sections
after_title headings [] = rejected response_empty
after_title headings (title ∷ rest) = parse_sections headings rest

unfoldable pub sections_before_fence : String → List String → Checked Sections
unfolding after_title
sections_before_fence text headings =
    after_title headings (skip_blank (split_lines (before_fence text)))

-- `fields[name]`.
unfoldable pub field_of : String → Sections → Checked String
field_of name [] = rejected (field_missing name)
field_of name ((heading, body) ∷ rest) =
    if str_eq heading name then accepted body else field_of name rest
