-- ===== src/Receipts/Fields.antt =====
-- pkg/receipts/record.go: `Fields`, the receipt fields of a record, and `clip`.
use agentic_operator_core.Base.{
  ℕ, zero, suc, ◌-◌, ◌||◌, ◌==◌, Option, none, some, List, [], ◌∷◌, ◌++◌, length, take, is_empty,
  ltb, if◌then◌else◌,
}
use agentic_operator_core.Base.Text.{Text, txt, text_eq}
use agentic_operator_core.Base.Strings.{elem}
use agentic_operator_core.Base.Try.{Try, ok, err, ◌>>=◌}
use agentic_operator_core.Receipts.{DecisionRecord, Codecs, ApprovalBlock}

-- The decisions of receiptspec.
pub data PolicyDecision : Type 0 where
  allow deny : PolicyDecision

-- `receiptspec.Fields`
pub record ReceiptFields : Type 0 where
  pub human_principal : Text
  pub agent_key_id : Text
  pub service : Text
  pub action : Text
  pub params_sha256 : Text
  pub policy_decision : PolicyDecision
  pub status_code : ℕ

-- Package utf8 and `strings.ToValidUTF8`: the length of the last rune of a text.
pub record Utf8 : Type 0 where
  pub to_valid : Text → Text → Text
  pub last_size : Text → ℕ

abbrev pub went_ahead : List Text
went_ahead = txt "allow" ∷ txt "approved" ∷ txt "edited" ∷ []

unfoldable pub policy_decision_of : Text → Try PolicyDecision
unfolding elem
policy_decision_of o =
    if elem o went_ahead
    then ok allow
    else if elem o (txt "deny" ∷ txt "rejected" ∷ txt "require_approval" ∷ [])
    then ok deny
    else err (txt "receipts: unknown outcome")

unfoldable pub status_code_of : Text → ℕ
unfolding elem
status_code_of o =
    if elem o went_ahead then 200 else if text_eq o (txt "require_approval") then 202 else 403

unfoldable pub without_nul : Text → Text
without_nul [] = []
without_nul (c ∷ s) = let rest = without_nul s in if c == 0 then rest else c ∷ rest

-- The loop of `clip`.
unfoldable pub shorten : Utf8 → ℕ → ℕ → Text → Text
shorten u zero n s = s
shorten u (suc fuel) n s =
    let rest = shorten u fuel n (take (length s - u.last_size s) s) in
    if ltb n (length s) then rest else s

unfoldable pub clip : Utf8 → Text → ℕ → Text → Text
clip u s n fallback =
    let v = without_nul (u.to_valid s (txt "?")) in
    let t = shorten u (length v) n v in
    if is_empty t || text_eq t (txt "decision:") then fallback else t

unfoldable pub agent_of : DecisionRecord → Text
agent_of rec =
    if is_empty rec.workload.uid
    then rec.workload.namespace ++ (txt "/" ++ rec.workload.name)
    else rec.workload.uid

unfoldable pub human_approver : Option ApprovalBlock → Try Text
human_approver none = err (txt "receipts: human record without approver")
human_approver (some a) =
    if is_empty a.approver
    then err (txt "receipts: human record without approver")
    else ok a.approver

unfoldable pub principal_of : Utf8 → DecisionRecord → Try Text
principal_of u rec =
    let system = txt "system:clawdlinux-operator" in
    if text_eq rec.layer (txt "human")
    then (human_approver rec.approval >>= λ a. ok (clip u a 256 system))
    else ok system

unfoldable pub fields_of : Codecs → Utf8 → DecisionRecord → Try ReceiptFields
fields_of c u rec = policy_decision_of rec.outcome >>= λ verdict. c.hash_record rec >>= λ hash.
    principal_of u rec >>= λ principal. ok (record {
      human_principal = principal;
      agent_key_id = clip u (agent_of rec) 128 (txt "unknown-workload");
      service = txt "clawdlinux";
      action = clip u (txt "decision:" ++ rec.action) 128 (txt "decision:unknown");
      params_sha256 = hash;
      policy_decision = verdict;
      status_code = status_code_of rec.outcome;
    })
