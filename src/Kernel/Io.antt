-- ===== src/Kernel/Io.antt =====
-- brain/io_types.py: percepts, the registry of texts, and the record of a tick. `printable` is
-- Unicode's table behind `str.isprintable`.
use toy_brain.Prelude.{
  ℕ, ◌≡◌, refl, Bool, true, false, ◌&&◌, not, Option, List, [], ◌∷◌, arith, Text, if◌then◌else◌,
  eq_text, all, All,
}
use toy_brain.Prelude.Outcome.{
  Result, ok, raise, ◌>>◌, require, i_rt_01, i_rt_09, percept_rho, registry_cogito, registry_text,
}
use toy_brain.Prelude.FrozenSet.{FrozenSet}
use toy_brain.Prelude.Dict.{Dict, put, All-put}
use toy_brain.Fraction.{Fraction, whole, leq}
use toy_brain.Tlica.Profile.{cogito_id, InUnit}
use toy_brain.Tlica.PtCns.{ConsistencyEval, ModeOp}
use toy_brain.Kernel.Toce.{ContentState}

pub record PerceptEvent : Type 0 where
  pub content_id : Text
  pub text : Text
  pub content_state : ContentState
  pub initial_rho : Fraction

abbrev pub has_text : Text → Bool
has_text [] = false
has_text (c ∷ s) = true

unfoldable pub percept_event :
    (ℕ → Bool) → Text → Text → ContentState → Fraction → Result PerceptEvent
percept_event printable content_id text content_state initial_rho = do
  require (not (eq_text content_id cogito_id)) i_rt_01
  require (has_text text && all printable text) i_rt_09
  require (leq (whole 0) initial_rho && leq initial_rho (whole 1)) percept_rho
  ok (record {
    content_id = content_id;
    text = text;
    content_state = content_state;
    initial_rho = initial_rho;
  })

pub record ContentRegistry : Type 0 where
  pub texts : Dict Text

-- the loop over `self.texts.items()`
unfoldable pub check_texts : Dict Text → Result (Unit {0})
check_texts [] = ok tt
check_texts ((k, v) ∷ rest) =
    let others = check_texts rest in
    if eq_text k cogito_id
    then raise registry_cogito
    else if has_text v
    then others
    else raise registry_text

unfoldable pub content_registry : Dict Text → Result ContentRegistry
unfolding check_texts
content_registry texts = do check_texts texts; ok (record { texts = texts })

unfoldable pub with_added : ContentRegistry → Text → Text → Result ContentRegistry
unfolding content_registry put
with_added r content_id text = content_registry (put content_id text r.texts)

abbrev pub empty : ContentRegistry
empty = record { texts = [] }

pub record TickRecord : Type 0 where
  pub tick_index : ℕ
  pub profile_values : Dict Fraction
  pub msi_contents : FrozenSet
  pub eval_map : Dict ConsistencyEval
  pub boundary : FrozenSet
  pub mode_trace : List ModeOp
  pub triggered_mode : Option ModeOp
  pub registry : ContentRegistry
  -- the content, its evaluation and its mode, from which the source formats a line
  pub notes : List (Text × ConsistencyEval × ModeOp)

-- What `__post_init__` lets through.
pub record IsPercept (e : PerceptEvent) : Type 0 where
  pub not_cogito : eq_text e.content_id cogito_id ≡ false
  pub text_given : has_text e.text ≡ true
  pub rho_in_unit : InUnit e.initial_rho

abbrev pub IsEntry : Text × Text → Type 0
IsEntry (k, v) = (eq_text k cogito_id ≡ false) × (has_text v ≡ true)

pub percept_event-IsPercept :
    (printable : ℕ → Bool) (content_id text : Text) (s : ContentState) (q : Fraction)
    {e : PerceptEvent}
    → percept_event printable content_id text s q ≡ ok e
    → IsPercept e
unfolding percept_event
percept_event-IsPercept printable content_id text s q h = ground arith

check_texts_valid : (d : Dict Text) → All IsEntry d → check_texts d ≡ ok tt
unfolding check_texts
check_texts_valid [] h = refl
check_texts_valid ((k, v) ∷ d) h = ground (arith, check_texts_valid d h.1)

-- A registry whose entries are accepted takes the text of every percept that its constructor
-- accepts, under the percept's content id.
pub with_added_valid :
    (r : ContentRegistry) (e : PerceptEvent)
    → All IsEntry r.texts
    → IsPercept e
    → with_added r e.content_id e.text ≡ ok (record { texts = put e.content_id e.text r.texts })
unfolding with_added
with_added_valid r e h k = rw (
    check_texts_valid (put e.content_id e.text r.texts)
      (All-put IsEntry e.content_id e.text r.texts (k.not_cogito, k.text_given) h))
