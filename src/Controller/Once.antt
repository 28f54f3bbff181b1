-- ===== src/Controller/Once.antt =====
-- internal/controller/approvals.go: how often a pending action is executed.
use agentic_operator_core.Base.{
  sym, ap, ℕ, suc, ◌+◌, ◌≤◌, false, none, List, [], ◌∷◌, ◌++◌, ◌≡◌, refl, inl, inr, All, arith,
  if◌then◌else◌, Bool-cases,
}
use mathlib.Core.Path.{subst}
use agentic_operator_core.Base.Text.{text_eq_refl, eq_of_text_eq, Text, text_eq}
use agentic_operator_core.Base.Strings.{elem}
use agentic_operator_core.Controller.{Status, Workload, Target, update, append, call}
use agentic_operator_core.Controller.Actions.{Surroundings, Reconciler}
use agentic_operator_core.Controller.Chances.{Safe, about, chance, reconcile-Quiet}
use agentic_operator_core.Controller.World.{
  start, stop, accept, write, execute, edit, propose, keep, clear, initial, next, Thread, World,
  Step, Reachable, WasStored,
}

abbrev pub about_all : List Thread → Text → ℕ
about_all [] id = 0
about_all (t ∷ ts) id = about t.rest id + about_all ts id

-- How often a pending action was executed.
abbrev pub times : Text → List (Text × Target) → ℕ
times id [] = 0
times id ((i, t) ∷ l) = (if text_eq i id then 1 else 0) + times id l

-- A copy, of version `v` and status `s`, of the object that is stored as `now` and `st`: it is not newer,
-- and equal at the same version.
record IsCopy (now : ℕ) (st : Status) (v : ℕ) (s : Status) : Type 0 where
  old : v ≤ now
  same : v ≡ now → s ≡ st

abbrev IsGood : World → Thread → Type 0
IsGood w t = IsCopy w.version w.stored.status t.version t.status × Safe t.status t.rest

record IsSafe (w : World) : Type 0 where
  past :
      (v : ℕ) (wl : Workload) → WasStored v wl w.past → IsCopy w.version w.stored.status v wl.status
  threads : All (IsGood w) w.threads
  once :
      (id : Text)
      → times id w.calls + (about_all w.threads id + chance w.stored.status.pending id)
        ≤ (if elem id w.proposed then 1 else 0)

older :
    (now : ℕ) (st st' : Status) (v : ℕ) (s : Status) → IsCopy now st v s → IsCopy (suc now) st' v s
older now st st' v s c = record {
  old = omega (arith, c.old);
  same = λ e. absurd (omega (arith, c.old));
}

past-store :
    (l : List (ℕ × Workload)) (now : ℕ) (st : Status) (new : Workload)
    → ((v : ℕ) (wl : Workload) → WasStored v wl l → IsCopy now st v wl.status)
    → (v : ℕ) (wl : Workload) → WasStored v wl ((suc now, new) ∷ l)
    → IsCopy (suc now) new.status v wl.status
past-store l now st new h v wl (inl e) = record {
  old = omega (arith, ap (λ x. x.0) e);
  same = λ q. sym (ap (λ x. x.1.status) e);
}
past-store l now st new h v wl (inr x) = older now st new.status v wl.status (h v wl x)

about_all-append :
    (l m : List Thread) (id : Text) → about_all (l ++ m) id ≡ about_all l id + about_all m id
about_all-append [] m id = omega arith
about_all-append (t ∷ l) m id = omega (arith, about_all-append l m id)

about_all-middle :
    (before after : List Thread) (t : Thread) (id : Text)
    → about_all (before ++ t ∷ after) id ≡ about t.rest id + about_all (before ++ after) id
about_all-middle before after t id =
    omega (arith, about_all-append before (t ∷ after) id, about_all-append before after id)

All-remove :
    (P : Thread → Type 0) (l : List Thread) (t : Thread) (m : List Thread)
    → All P (l ++ t ∷ m)
    → P t × ((u : Thread) → P u → All P (l ++ u ∷ m)) × All P (l ++ m)
All-remove P [] t m h = (h.0, λ u p. (p, h.1), h.1)
All-remove P (x ∷ l) t m h =
    let (a, b, c) = All-remove P l t m h.1 in (a, λ u p. (h.0, b u p), (h.0, c))

All-map : (P Q : Thread → Type 0) (l : List Thread) → ((t : Thread) → P t → Q t) → All P l → All Q l
All-map P Q [] f h = tt
All-map P Q (t ∷ l) f h = (f t h.0, All-map P Q l f h.1)

initial-IsSafe :
    (wl : Workload)
    → wl.status.pending ≡ none
    → IsSafe (record {
      stored = wl;
      version = 0;
      past = (0, wl) ∷ [];
      threads = [];
      receipts = [];
      calls = [];
      proposed = [];
    })
initial-IsSafe wl h = record {
  past = λ v wl'. elim [
    | inl e ↦ record {
      old = omega (arith, ap (λ x. x.0) e);
      same = λ q. sym (ap (λ x. x.1.status) e);
    }
    | inr x ↦ absurd x
  ];
  threads = tt;
  once = λ id. rw h (omega arith);
}

propose_once :
    (id new : Text) (l : List Text) (n m : ℕ)
    → elem new l ≡ false
    → n + m ≤ (if elem id l then 1 else 0)
    → n + (if text_eq new id then 1 else 0) ≤ (if elem id (new ∷ l) then 1 else 0)
unfolding elem
propose_once id new l n m h b = elim (Bool-cases (text_eq new id)) [
  | inr ne ↦ ground arith
  | inl eq ↦
      let e : new ≡ id = eq_of_text_eq new id eq in
      let out : elem id l ≡ false = rw (← e) h in ground (arith, text_eq_refl id, ap (text_eq id) e)
]

-- Good in the world that stores `wl` next.
abbrev IsNewer : World → Workload → Thread → Type 0
IsNewer w wl t = IsCopy (suc w.version) wl.status t.version t.status × Safe t.status t.rest

-- After an update the threads that hold an older copy stay good.
All-older : (w : World) (wl : Workload) (l : List Thread) → All (IsGood w) l → All (IsNewer w wl) l
All-older w wl l = All-map _ _ l (λ t g. (older _ _ _ _ _ g.0, g.1))

module _ (env : Surroundings) (r : Reconciler) where
  Step-IsSafe : {w w' : World} → Step env r w w' → IsSafe w → IsSafe w'
  Step-IsSafe (start w v wl p m h) i =
      let q = reconcile-Quiet env r wl p h in
      record {
        past = i.past;
        threads = ((i.past v wl m, q.safe), i.threads);
        once = λ id. omega (arith, i.once id, q.idle id);
      }
  Step-IsSafe (stop w before after t e) i =
      let th : All (IsGood w) (before ++ t ∷ after) = rw (← e) i.threads in
      record {
        past = i.past;
        threads = (All-remove (IsGood w) before t after th).2;
        once = λ id.
            omega
              (arith, i.once id, about_all-middle before after t id, ap (λ l. about_all l id) e);
      }
  Step-IsSafe (accept w before after t st k e f g) i =
      let all : All (IsGood w) (before ++ t ∷ after) = rw (← e) i.threads in
      let (g0, put, rest) = All-remove (IsGood w) before t after all in
      let safe : Safe t.status (update st k) = subst (λ x. Safe t.status x) f g0.1 in
      let wl : Workload = record (w.stored) { status = st } in
      let copy : Thread = record { version = suc w.version; status = st; rest = k } in
      record {
        past = past-store _ _ _ _ i.past;
        threads =
            (All-remove (IsNewer w wl) before t after (All-older w wl _ all)).1 copy
              (record { old = omega arith; same = λ q. refl }, safe.1);
        once = λ id. omega (
          arith,
          i.once id,
          safe.0 id,
          ap (λ s. chance s.pending id) (g0.0.same g),
          about_all-middle before after t id,
          about_all-middle before after copy id,
          ap (λ l. about_all l id) e,
        );
      }
  Step-IsSafe (write w before after t x k reply e f) i =
      let (g0, put, rest) = All-remove (IsGood w) before t after (rw (← e) i.threads) in
      let safe : Safe t.status (append x k) = subst (λ x. Safe t.status x) f g0.1 in
      record {
        past = i.past;
        threads = put (record t { rest = k reply }) (g0.0, (safe reply).1);
        once = λ id. omega (
          arith,
          i.once id,
          about_all-middle before after t id,
          about_all-middle before after (record t { rest = k reply }) id,
          ap (λ l. about_all l id) e,
          (safe reply).0 id,
        );
      }
  Step-IsSafe (execute w before after t id tgt k reply e f) i =
      let (g0, put, rest) = All-remove (IsGood w) before t after (rw (← e) i.threads) in
      let safe : Safe t.status (call id tgt k) = subst (λ x. Safe t.status x) f g0.1 in
      record {
        past = i.past;
        threads = put (record t { rest = k reply }) (g0.0, (safe reply).1);
        once = λ j. omega (
          arith,
          i.once j,
          about_all-middle before after t j,
          about_all-middle before after (record t { rest = k reply }) j,
          ap (λ l. about_all l j) e,
          ap (λ l. about l j) f,
          (safe reply).0 j,
        );
      }
  Step-IsSafe (edit w ann) i = record {
    past = past-store _ _ _ _ i.past;
    threads = All-older w w.stored w.threads i.threads;
    once = i.once;
  }
  Step-IsSafe (propose w st p n h) i = record {
    past = past-store _ _ _ _ i.past;
    threads = All-older w (record (w.stored) { status = st }) w.threads i.threads;
    once = λ id. rw h (
        omega (
          arith,
          propose_once id p.id w.proposed (times id w.calls + about_all w.threads id)
              (chance w.stored.status.pending id) n (omega (arith, i.once id)),
        ));
  }
  Step-IsSafe (keep w st h) i = record {
    past = past-store _ _ _ _ i.past;
    threads = All-older w (record (w.stored) { status = st }) w.threads i.threads;
    once = λ id. rw h (i.once id);
  }
  Step-IsSafe (clear w st h) i = record {
    past = past-store _ _ _ _ i.past;
    threads = All-older w (record (w.stored) { status = st }) w.threads i.threads;
    once = λ id. rw h (omega (arith, i.once id));
  }

  Reachable-IsSafe : {w : World} → Reachable env r w → IsSafe w
  Reachable-IsSafe (initial wl h) = initial-IsSafe wl h
  Reachable-IsSafe (next w w' h s) = Step-IsSafe s (Reachable-IsSafe h)

  -- A pending action is executed at most once, and only if it was proposed: in every world that can be
  -- reached, by steps that propose no id twice, from a workload with no pending action, at most one
  -- call was made under one id. That holds whatever stale copies reconciles start from, however many
  -- run at once, and wherever they stop.
  pub at_most_once :
      (w : World) (id : Text)
      → Reachable env r w
      → (times id w.calls ≤ 1) × (elem id w.proposed ≡ false → times id w.calls ≡ 0)
  at_most_once w id h = ground (arith, (Reachable-IsSafe h).once id)
