-- ===== src/Audit/Encoding.antt =====
-- The wire format of an entry determines the entry's hashed fields.
use agentic_operator_core.Base.{
  ◌∙◌, sym, ℕ, zero, suc, ◌*◌, ◌/◌, ◌%◌, ◌^◌, ◌<◌, ◌≡◌, refl, ap, [], ◌∷◌, ◌++◌, length, arith,
}
use native.Mathlib.Nat.{pow-suc}
use agentic_operator_core.Base.Text.{Text}
use agentic_operator_core.Audit.{Entry, little_endian, write_lp, entry_bytes}

cons-injective : {a b : ℕ} {s t : Text} → a ∷ s ≡ b ∷ t → (a ≡ b) × (s ≡ t)
cons-injective e = (cc, cc)

length-little_endian : (w n : ℕ) → length (little_endian w n) ≡ w
unfolding little_endian
length-little_endian zero n = refl
length-little_endian (suc w) n = ap suc (length-little_endian w (n / 256))

append-injective : (s t u v : Text) → length s ≡ length t → s ++ u ≡ t ++ v → (s ≡ t) × (u ≡ v)
append-injective [] [] u v l e = (refl, e)
append-injective [] (b ∷ t) u v l e = absurd (omega arith)
append-injective (a ∷ s) [] u v l e = absurd (omega arith)
append-injective (a ∷ s) (b ∷ t) u v l e =
    let tails : s ++ u ≡ t ++ v = cc in
    let (p, q) = append-injective s t u v (omega arith) tails in let heads : a ≡ b = cc in (cc, q)

digit : (w n : ℕ) → n < 256 ^ suc w → n / 256 < 256 ^ w
digit w n p = let q : n < 256 ^ w * 256 = rw pow-suc at p in omega arith

little_endian-injective :
    (w m n : ℕ) → m < 256 ^ w → n < 256 ^ w → little_endian w m ≡ little_endian w n → m ≡ n
unfolding little_endian
little_endian-injective zero m n p q e = omega arith
little_endian-injective (suc w) m n p q e =
    let low : m % 256 ≡ n % 256 = cc in
    let high : little_endian w (m / 256) ≡ little_endian w (n / 256) = cc in
    let same : m / 256 ≡ n / 256 =
      little_endian-injective w (m / 256) (n / 256) (digit w m p) (digit w n q) high in
    omega arith

length-eq :
    (s t : Text)
    → length s < 256 ^ 4
    → length t < 256 ^ 4
    → length s % 4294967296 ≡ length t % 4294967296
    → length s ≡ length t
length-eq s t p q n = omega arith

fixed-injective :
    (w m n : ℕ) (u v : Text)
    → m < 256 ^ w
    → n < 256 ^ w
    → little_endian w m ++ u ≡ little_endian w n ++ v
    → (m ≡ n) × (u ≡ v)
fixed-injective w m n u v p q e =
    let (a, b) =
      append-injective (little_endian w m) (little_endian w n) u v
        (omega (arith, length-little_endian w m, length-little_endian w n)) e in
    (little_endian-injective w m n p q a, b)

-- A length-prefixed text is found again at the head of what follows.
write_lp-injective :
    (s t u v : Text)
    → length s < 256 ^ 4
    → length t < 256 ^ 4
    → write_lp s ++ u ≡ write_lp t ++ v
    → (s ≡ t) × (u ≡ v)
unfolding write_lp
write_lp-injective s t u v p q e =
    let (n, b) =
      fixed-injective 4 (length s % 4294967296) (length t % 4294967296) (s ++ u) (t ++ v)
        (omega arith) (omega arith) e in
    append-injective s t u v (length-eq s t p q n) b

-- The field sizes of the Go types: 64-bit numbers, texts below 4 GiB, hashes of 32 bytes.
pub record IsSized (e : Entry) : Type 0 where
  pub seq : e.seq < 256 ^ 8
  pub timestamp : e.timestamp < 256 ^ 8
  pub tenant_id : length e.tenant_id < 256 ^ 4
  pub agent_workload : length e.agent_workload < 256 ^ 4
  pub actor : length e.actor < 256 ^ 4
  pub subject_id : length e.subject_id < 256 ^ 4
  pub payload_sha256 : length e.payload_sha256 ≡ 32
  pub prev_hash : length e.prev_hash ≡ 32

-- What the entry hash binds.
pub record SameHashed (e f : Entry) : Type 0 where
  pub seq : e.seq ≡ f.seq
  pub timestamp : e.timestamp ≡ f.timestamp
  pub tenant_id : e.tenant_id ≡ f.tenant_id
  pub agent_workload : e.agent_workload ≡ f.agent_workload
  pub actor : e.actor ≡ f.actor
  pub action : e.action ≡ f.action
  pub subject_id : e.subject_id ≡ f.subject_id
  pub payload_sha256 : e.payload_sha256 ≡ f.payload_sha256
  pub prev_hash : e.prev_hash ≡ f.prev_hash

-- Two entries of the sizes of the Go types with the same canonical bytes agree in every hashed field:
-- the wire format leaves no ambiguity between adjacent fields.
pub entry_bytes-injective :
    (e f : Entry) → IsSized e → IsSized f → entry_bytes e ≡ entry_bytes f → SameHashed e f
unfolding entry_bytes
entry_bytes-injective e f p q h =
    let (seq, h1) = fixed-injective 8 e.seq f.seq _ _ p.seq q.seq h in
    let (ts, h2) = fixed-injective 8 e.timestamp f.timestamp _ _ p.timestamp q.timestamp h1 in
    let (tenant, h3) = write_lp-injective e.tenant_id f.tenant_id _ _ p.tenant_id q.tenant_id h2 in
    let (workload, h4) =
      write_lp-injective e.agent_workload f.agent_workload _ _ p.agent_workload q.agent_workload
        h3 in
    let (actor, h5) = write_lp-injective e.actor f.actor _ _ p.actor q.actor h4 in
    let (action, h6) = cons-injective h5 in
    let (subject, h7) =
      write_lp-injective e.subject_id f.subject_id _ _ p.subject_id q.subject_id h6 in
    let (psha, prev) =
      append-injective e.payload_sha256 f.payload_sha256 e.prev_hash f.prev_hash
        (p.payload_sha256 ∙ sym q.payload_sha256) h7 in
    record {
      seq = seq;
      timestamp = ts;
      tenant_id = tenant;
      agent_workload = workload;
      actor = actor;
      action = action;
      subject_id = subject;
      payload_sha256 = psha;
      prev_hash = prev;
    }
