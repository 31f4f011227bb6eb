-- ===== src/Request/Operations.antt =====
-- The translation of a list of operations.
use logos_accounts.Prelude.{
  String, ◌≡◌, false, List, [], ◌∷◌, Result, ok, collect, arith, map_err, map_err-eq-ok, >>=-eq-ok,
}
use logos_accounts.Error.{encoding}
use logos_accounts.Externals.{Externals, OpParams}
use logos_accounts.Request.{PlogOp, into_op_params, plog_ops_to_params, is_blank, parse_ops_json}

module _ ⦃x : Externals⦄ where
  -- Each operation translates to the parameters in its place.
  pub data Translates : List PlogOp → List OpParams → Type 0 where
    all_done : Translates [] []
    one_more :
        {ops : List PlogOp} {ps : List OpParams} (op : PlogOp) (p : OpParams)
        → into_op_params op ≡ ok p
        → Translates ops ps
        → Translates (op ∷ ops) (p ∷ ps)

  plog_ops_to_params-Translates :
      (ops : List PlogOp) (ps : List OpParams) → plog_ops_to_params ops ≡ ok ps → Translates ops ps
  unfolding plog_ops_to_params
  plog_ops_to_params-Translates [] ps h = let is : [] ≡ ps = ground (arith, h) in rw (← is) all_done
  plog_ops_to_params-Translates (op ∷ ops) ps h =
      let (p, made, rest) = >>=-eq-ok (into_op_params op) _ h in
      let (qs, later, last) = >>=-eq-ok (collect into_op_params ops) _ rest in
      let is : p ∷ qs ≡ ps = ground (arith, last) in
      rw (← is) (one_more op p made (plog_ops_to_params-Translates ops qs later))

  -- If `parse_ops_json` returns parameters for a text that is not blank, then serde reads the text
  -- as operations, and each of them translates to the parameters in its place.
  parse_ops_json-Translates :
      (from_str : String → Result (List PlogOp) String) (text : String) (ps : List OpParams)
      → is_blank text ≡ false
      → parse_ops_json from_str text ≡ ok ps
      → (ops : List PlogOp) × (from_str text ≡ ok ops) × Translates ops ps
  unfolding parse_ops_json
  parse_ops_json-Translates from_str text ps shown h =
      let (ops, read, rest) =
        >>=-eq-ok (map_err encoding (from_str text)) plog_ops_to_params (rw shown at h) in
      (ops, map_err-eq-ok encoding (from_str text) read, plog_ops_to_params-Translates ops ps rest)
