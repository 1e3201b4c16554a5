-- ===== src/Llm/Prompt.antt =====
-- brain/llm/prompts.py and the prompts of `LLMBackedPtCns`, with the messages of parse.py that a
-- retry quotes.
use toy_brain.Prelude.{
  Bool, true, false, none, some, List, [], ◌∷◌, ◌++◌, Text, codes, if◌then◌else◌, ltb, ◌==◌,
  eq_text,
}
use toy_brain.Prelude.FrozenSet.{FrozenSet}
use toy_brain.Prelude.Dict.{Dict, get}
use toy_brain.Tlica.Profile.{cogito_id}
use toy_brain.Llm.Parse.{Parsed, ambiguous}

-- `s <= t` on strings
unfoldable pub leq_text : Text → Text → Bool
leq_text [] t = true
leq_text (a ∷ s) [] = false
leq_text (a ∷ s) (b ∷ t) =
    let rest = leq_text s t in if ltb a b then true else if a == b then rest else false

-- `sorted(s)`
unfoldable pub insert_sorted : Text → List Text → List Text
unfolding leq_text
insert_sorted x [] = x ∷ []
insert_sorted x (y ∷ s) =
    let rest = insert_sorted x s in if leq_text x y then x ∷ y ∷ s else y ∷ rest

unfoldable pub sorted : FrozenSet → List Text
unfolding insert_sorted
sorted [] = []
sorted (x ∷ s) = insert_sorted x (sorted s)

-- The literal parts and the values of a template, one after another.
unfoldable pub join_all : List Text → Text
join_all [] = []
join_all (s ∷ rest) = s ++ join_all rest

-- `"\n".join(lines)`
unfoldable pub join_lines : List Text → Text
join_lines [] = []
join_lines (s ∷ []) = s
join_lines (s ∷ t ∷ rest) = s ++ (codes "\n" ++ join_lines (t ∷ rest))

-- `PROMPT_TEMPLATE.format(existing_msi=…, new_id=…, new_text=…)`
unfoldable pub prompt_template : Text → Text → Text → Text
unfolding join_all
prompt_template existing_msi new_id new_text = join_all (
    (codes "You are evaluating a new piece of content for inclusion in a self-modeling ")
    ∷ (codes "system.\n")
    ∷ (codes "\n")
    ∷ (codes "The system has an identity anchor (the \"cogito\": the system's bare ")
    ∷ (codes "self-as-self) and currently contains the following non-cogito contents in its ")
    ∷ (codes "maximally-self-defined I (MSI):\n")
    ∷ (codes "\n")
    ∷ existing_msi
    ∷ (codes "\n")
    ∷ (codes "\n")
    ∷ (codes "The new content to evaluate is:\n")
    ∷ (codes "- ID: ")
    ∷ new_id
    ∷ (codes "\n")
    ∷ (codes "- Description: ")
    ∷ new_text
    ∷ (codes "\n")
    ∷ (codes "\n")
    ∷ (codes "Evaluate whether integrating this content into the self-model would:\n")
    ∷ (codes "\n")
    ∷ (codes "- PRESERVE: positively integrate with the existing self-model ")
    ∷ (codes "(consistency-preserving; identity-correlation-positive).\n")
    ∷ (codes "- DAMAGE: threaten the consistency of the existing self-model ")
    ∷ (codes "(frame-threatening contradiction; identity-correlation-negative).\n")
    ∷ (codes "- NEUTRAL: neither preserve nor damage — identity-irrelevant information that ")
    ∷ (codes "can be encapsulated without disturbing the frame.\n")
    ∷ (codes "\n")
    ∷ (codes "Respond with exactly one word: PRESERVE, DAMAGE, or NEUTRAL. No other text.\n")
    ∷ [])

-- `RETRY_TEMPLATE.format(original=…, raw=…, error=…)`
unfoldable pub retry_template : Text → Text → Text → Text
unfolding join_all
retry_template original raw error = join_all (
    (codes "Your previous response could not be parsed.\n")
    ∷ (codes "\n")
    ∷ (codes "Original prompt:\n")
    ∷ original
    ∷ (codes "\n")
    ∷ (codes "\n")
    ∷ (codes "Your response was:\n")
    ∷ raw
    ∷ (codes "\n")
    ∷ (codes "\n")
    ∷ (codes "Parse error: ")
    ∷ error
    ∷ (codes "\n")
    ∷ (codes "\n")
    ∷ (codes "Please respond with exactly one word: PRESERVE, DAMAGE, or NEUTRAL. No other ")
    ∷ (codes "text.\n")
    ∷ [])

-- `self._texts.get(cid, default)`
unfoldable pub text_or : Text → Text → Dict Text → Text
unfolding get
text_or default cid texts = elim (get cid texts) [ none ↦ default | some t ↦ t ]

-- The comprehension of `_build_prompt` over the sorted contents.
unfoldable pub existing_lines : Dict Text → List Text → List Text
unfolding text_or eq_text cogito_id
existing_lines texts [] = []
existing_lines texts (cid ∷ rest) =
    let lines = existing_lines texts rest in
    if eq_text cid cogito_id
    then lines
    else (codes "- " ++ (cid ++ (codes ": " ++ text_or (codes "(no description)") cid texts)))
      ∷ lines

abbrev lines_or_empty : List Text → Text
unfolding join_lines
lines_or_empty [] = codes "(empty — only the cogito anchor is present)"
lines_or_empty (line ∷ lines) = join_lines (line ∷ lines)

unfoldable pub build_prompt : FrozenSet → Dict Text → Text → Text
unfolding sorted existing_lines prompt_template lines_or_empty
build_prompt contents texts content_id =
    prompt_template (lines_or_empty (existing_lines texts (sorted contents))) content_id
      (text_or (codes "(no description)") content_id texts)

unfoldable pub build_retry_prompt : Text → Text → Text → Text
unfolding retry_template
build_retry_prompt original raw error = retry_template original raw error

-- `str(exc)` of the `ParseError` that parse.py raises on `raw`.
unfoldable pub parse_message : (Text → Text) → (List Text → Text) → Parsed → Text → Text
unfolding sorted join_all
parse_message repr repr_list (ambiguous found) raw = join_all (
    codes "Ambiguous response — found multiple valid tokens "
    ∷ repr_list (sorted found)
    ∷ codes " in "
    ∷ repr raw
    ∷ codes ". Expected exactly one of PRESERVE / DAMAGE / NEUTRAL."
    ∷ [])
parse_message repr repr_list _ raw =
    join_all
      (codes "Could not parse " ∷ repr raw ∷ codes " as one of PRESERVE / DAMAGE / NEUTRAL" ∷ [])
