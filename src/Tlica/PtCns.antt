-- ===== src/Tlica/PtCns.antt =====
-- brain/tlica/ptcns.py and modes.py: consistency evaluations, `PtCns` with the checks of its
-- `__post_init__`, its three content sets, and `from_eval`.
use toy_brain.Prelude.{
  ◌≡◌, refl, Bool, true, false, Option, none, some, [], ◌∷◌, arith, Text, if◌then◌else◌,
  eq_text_iff,
}
use toy_brain.Prelude.Outcome.{Result, ok, ◌>>◌, require, ptcns_keys, i_ptc_01}
use toy_brain.Prelude.FrozenSet.{FrozenSet, Distinct, contains, set_eq}
use toy_brain.Prelude.Dict.{Dict, get, item, keys, contains-keys}
use toy_brain.Tlica.Profile.{cogito_id}
use toy_brain.Tlica.Msi.{Msi}

pub data ConsistencyEval : Type 0 where
  damage neutral preserve : ConsistencyEval

-- `e is f`
abbrev pub is_eval : ConsistencyEval → ConsistencyEval → Bool
is_eval damage damage = true
is_eval neutral neutral = true
is_eval preserve preserve = true
is_eval _ _ = false

abbrev pub holds_eval : ConsistencyEval → Option ConsistencyEval → Bool
holds_eval e none = false
holds_eval e (some f) = is_eval e f

pub data ModeOp : Type 0 where
  mode_a mode_b mode_c neutral : ModeOp

-- the table `_FROM_EVAL`
unfoldable pub from_eval : ConsistencyEval → ModeOp
from_eval damage = mode_a
from_eval ConsistencyEval.neutral = ModeOp.neutral
from_eval preserve = mode_c

pub record PtCns : Type 0 where
  pub msi : Msi
  pub eval_map : Dict ConsistencyEval

unfoldable pub ptcns : Msi → Dict ConsistencyEval → Result PtCns
ptcns m eval_map = do
  require (set_eq (keys eval_map) m.profile.domain) ptcns_keys
  require (holds_eval preserve (get cogito_id eval_map)) i_ptc_01
  ok (record { msi = m; eval_map = eval_map })

unfoldable pub eval : PtCns → Text → Result ConsistencyEval
unfolding item
eval p x = item x p.eval_map

-- `frozenset(x for x, e in eval_map.items() if e is wanted)`
unfoldable pub contents_with : ConsistencyEval → Dict ConsistencyEval → FrozenSet
contents_with wanted [] = []
contents_with wanted ((x, e) ∷ rest) =
    let others = contents_with wanted rest in if is_eval wanted e then x ∷ others else others

abbrev pub positive_contents : PtCns → FrozenSet
positive_contents p = contents_with preserve p.eval_map

abbrev pub negative_contents : PtCns → FrozenSet
negative_contents p = contents_with damage p.eval_map

abbrev pub neutral_contents : PtCns → FrozenSet
neutral_contents p = contents_with ConsistencyEval.neutral p.eval_map

pub record IsValid (p : PtCns) : Type 0 where
  pub same_keys : set_eq (keys p.eval_map) p.msi.profile.domain ≡ true
  pub cogito_preserve : get cogito_id p.eval_map ≡ some preserve
  pub distinct : Distinct (keys p.eval_map)

pub contains-contents_with :
    (e : ConsistencyEval) (x : Text) (m : Dict ConsistencyEval)
    → Distinct (keys m)
    → contains x (contents_with e m) ≡ holds_eval e (get x m)
unfolding contents_with contains get
contains-contents_with e x [] h = refl
contains-contents_with e x ((y, f) ∷ m) h =
    ground (arith, contains-contents_with e x m h.1, eq_text_iff x y, contains-keys x m)

holds_preserve : (o : Option ConsistencyEval) → holds_eval preserve o ≡ true → o ≡ some preserve
holds_preserve o h = ground arith

pub ptcns-of_IsValid : (p : PtCns) → IsValid p → ptcns p.msi p.eval_map ≡ ok p
unfolding ptcns
ptcns-of_IsValid p h = ground (arith, h.same_keys, h.cogito_preserve)

-- If the constructor of `PtCns` returns on a map with distinct keys, it returns its arguments
-- unchanged, the keys are the profile's domain, and the cogito is evaluated as PRESERVE.
pub ptcns-IsValid :
    (m : Msi) (eval_map : Dict ConsistencyEval) {p : PtCns}
    → Distinct (keys eval_map)
    → ptcns m eval_map ≡ ok p
    → (p ≡ record { msi = m; eval_map = eval_map }) × IsValid p
unfolding ptcns
ptcns-IsValid m eval_map d e = ground (arith, holds_preserve (get cogito_id eval_map))
