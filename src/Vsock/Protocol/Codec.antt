-- ===== src/Vsock/Protocol/Codec.antt =====
-- What the protocol uses of Python's `json` module, and what its documentation promises of it.
use agentic_ai_tee.Base.{
  ℕ, ◌≡◌, true, Option, none, some, List, [], Value, dict, Fields, is_json_fields,
}

abbrev pub Bytes : Type 0
Bytes = List ℕ

pub record JsonCodec : Type 0 where
  -- `json.dumps(d, separators=(",", ":")).encode("utf-8")`; `none` where it raises
  pub dumps : Fields → Option Bytes
  -- `json.loads(b.decode("utf-8"))`; `none` for a JSONDecodeError or a UnicodeDecodeError
  pub loads : Bytes → Option Value

pub record IsLawful (J : JsonCodec) : Type 0 where
  pub loads-dumps :
      (d : Fields) (bs : Bytes)
      → is_json_fields d ≡ true
      → J.dumps d ≡ some bs
      → J.loads bs ≡ some (dict d)
  -- the empty document is no JSON
  pub loads_empty : J.loads [] ≡ none
