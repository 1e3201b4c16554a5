-- ===== src/Llm/Env.antt =====
-- What the kernel takes from outside the repository: the transport of a client, SHA-256, `repr`,
-- the parser of `Fraction(str)`, and Unicode's tables behind `str.upper`, `str.isspace` and
-- `str.isprintable`.
use toy_brain.Prelude.{ℕ, Bool, List, Text}
use toy_brain.Prelude.Outcome.{Result}
use toy_brain.Fraction.{Fraction}

-- The tuple that `_canonical_l2_key` hashes.
pub record KeyPayload : Type 0 where
  pub cache_schema : Text
  pub prompt_version : Text
  pub parse_schema : Text
  pub backend_family : Text
  pub model_identity : Text
  pub msi_context : List (Text × Text)
  pub new_text : Text

pub record Env (C : Type 0) : Type 0 where
  -- `client.eval_consistency(prompt)`, which may raise, and the client after it
  pub eval_consistency : Text → C → Result Text × C
  -- `hashlib.sha256(repr(payload).encode("utf-8")).hexdigest()`
  pub digest : KeyPayload → Text
  pub repr : Text → Text
  -- `repr` of a list of strings
  pub repr_list : List Text → Text
  pub parse_fraction : Text → Result Fraction
  pub upper : Text → Text
  pub is_space : ℕ → Bool
  pub printable : ℕ → Bool
