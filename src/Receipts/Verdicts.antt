-- ===== src/Receipts/Verdicts.antt =====
-- pkg/receipts/record.go: which decisions a receipt shows as gone ahead, and the bound of `clip`.
use agentic_operator_core.Base.{
  false, ltb, ℕ, zero, suc, ◌-◌, ◌≤◌, ◌≡◌, ◌↔◌, refl, sym, length, take, length-take, arith, ◌||◌,
  is_empty, Bool-cases, inl, inr,
}
use mathlib.Core.Path.{subst}
use agentic_operator_core.Base.Strings.{elem}
use agentic_operator_core.Base.Text.{Text, txt, text_eq}
use agentic_operator_core.Base.Try.{ok, Holds, ok-Holds, >>=-Holds, ok_injective}
use agentic_operator_core.Decision.{Result, Outcome}
use agentic_operator_core.Receipts.{Codecs, DecisionRecord, Params}
use agentic_operator_core.Receipts.Record.{
  payload_sha256_of, input_hash, hash_hex, canon_declared, canon_observed, canon_claimed,
  record_with, new_decision_record, map_result, map_outcome, map_layer, record_with,
}
use agentic_operator_core.Receipts.Fields.{
  PolicyDecision, allow, deny, ReceiptFields, Utf8, fields_of, policy_decision_of, clip, shorten,
  status_code_of, principal_of, without_nul,
}

module _ (c : Codecs) (u : Utf8) where
  record_verdict :
      (p : Params)
      → Holds (λ rec. map_result p.result ≡ ok (rec.outcome, rec.layer)) (new_decision_record c p)
  unfolding new_decision_record record_with
  record_verdict p = >>=-Holds (map_result p.result) _ (λ v e.
      >>=-Holds (payload_sha256_of c p.payload) _ (λ payload e1.
        >>=-Holds (input_hash c p.input payload) _ (λ hash e2.
          >>=-Holds (hash_hex c (canon_declared p.input.declared)) _ (λ decl e3.
            >>=-Holds (hash_hex c (canon_observed p.input.observed)) _ (λ obs e4.
              >>=-Holds (hash_hex c (canon_claimed c p.input.claimed)) _
                (λ claim e5. ok-Holds (record_with c p v payload hash decl obs claim) e))))))

  result_outcome :
      (r : Result) → Holds (λ (v : Text × Text). map_outcome r.outcome ≡ ok v.0) (map_result r)
  unfolding map_result
  result_outcome r =
      >>=-Holds (map_outcome r.outcome) _
        (λ x e. >>=-Holds (map_layer r.layer) _ (λ y f. ok-Holds (x, y) e))

  outcome-allow :
      (r : Outcome) (o : Text) (d : PolicyDecision)
      → map_outcome r ≡ ok o
      → policy_decision_of o ≡ ok d
      → (d ≡ allow) ↔ (r ≡ Outcome.allow)
  unfolding map_outcome policy_decision_of elem text_eq
  outcome-allow Outcome.allow o d h e =
      let f : ok allow ≡ ok d =
        subst (λ x. policy_decision_of x ≡ ok d) (sym (ok_injective _ _ h)) e in
      (λ x. refl, λ x. sym (ok_injective _ _ f))
  outcome-allow Outcome.deny o d h e =
      let f : ok deny ≡ ok d =
        subst (λ x. policy_decision_of x ≡ ok d) (sym (ok_injective _ _ h)) e in
      (λ x. absurd (cc (f, x)), λ x. absurd (cc x))
  outcome-allow Outcome.require_approval o d h e =
      let f : ok deny ≡ ok d =
        subst (λ x. policy_decision_of x ≡ ok d) (sym (ok_injective _ _ h)) e in
      (λ x. absurd (cc (f, x)), λ x. absurd (cc x))
  outcome-allow (Outcome.unknown s) o d h e = absurd (cc h)

  fields_verdict :
      (rec : DecisionRecord)
      → Holds
          (λ f.
            (policy_decision_of rec.outcome ≡ ok f.policy_decision)
            × (f.status_code ≡ status_code_of rec.outcome)
            × (c.hash_record rec ≡ ok f.params_sha256))
          (fields_of c u rec)
  unfolding fields_of
  fields_verdict rec = >>=-Holds (policy_decision_of rec.outcome) _ (λ v e.
      >>=-Holds (c.hash_record rec) _
        (λ h f. >>=-Holds (principal_of u rec) _ (λ q g. ok-Holds _ (e, refl, f))))

  -- The receipt of a decision says that the action went ahead exactly if the decision is to allow it,
  -- and it carries the hash of the record.
  pub fields_of-allow :
      (p : Params) (rec : DecisionRecord) (f : ReceiptFields)
      → new_decision_record c p ≡ ok rec
      → fields_of c u rec ≡ ok f
      → ((f.policy_decision ≡ allow) ↔ (p.result.outcome ≡ Outcome.allow))
        × (c.hash_record rec ≡ ok f.params_sha256)
  fields_of-allow p rec f h e =
      let (verdict, code, hash) = (fields_verdict rec).holds f e in
      let v = (record_verdict p).holds rec h in
      (
        outcome-allow p.result.outcome rec.outcome f.policy_decision
            ((result_outcome p.result).holds _ v) verdict,
        hash,
      )

module _ (u : Utf8) where
  -- `DecodeLastRuneInString` reports a size of 0 for the empty text only.
  abbrev pub IsSized : Type 0
  IsSized = (s : Text) → 1 ≤ length s → 1 ≤ u.last_size s

  shorten-bound :
      IsSized → (fuel n : ℕ) (s : Text) → length s ≤ fuel → length (shorten u fuel n s) ≤ n
  unfolding shorten
  shorten-bound h zero n s b = ground arith
  shorten-bound h (suc fuel) n s b =
      let t = take (length s - u.last_size s) s in
      let size = length-take (length s - u.last_size s) s in
      elim (Bool-cases (ltb n (length s))) [
        | inr e ↦ ground (arith, e)
        | inl e ↦
            let smaller = h s (ground (arith, e)) in
            rw e (shorten-bound h fuel n t (ground (arith, size, smaller, b)))
      ]

  -- `clip` yields a text that is not empty and has at most the number of bytes asked for, if its fallback
  -- is such a text and the last rune of a text that is not empty has at least one byte.
  pub clip-bound :
      IsSized
      → (s : Text) (n : ℕ) (fallback : Text) → length fallback ≤ n
      → is_empty fallback ≡ false
      → (length (clip u s n fallback) ≤ n) × (is_empty (clip u s n fallback) ≡ false)
  unfolding clip
  clip-bound h s n fallback b ne =
      let v = without_nul (u.to_valid s (txt "?")) in
      let t = shorten u (length v) n v in
      elim (Bool-cases (is_empty t || text_eq t (txt "decision:"))) [
        | inl e ↦ rw e (b, ne)
        | inr e ↦ rw e (shorten-bound h (length v) n v (omega arith), ground (arith, e))
      ]
