-- ===== src/Controller/World.antt =====
-- The API server, the receipts and the MCP server around the reconciler of
-- internal/controller/approvals.go, as a step relation. A status update succeeds only on the version
-- that the reconcile has read (the API server's optimistic concurrency); a reconcile may start from
-- any version that was ever stored (a stale cache), several may run at once (two operators), and each
-- may stop at any point. A client may change annotations. The other reconciler proposes pending
-- actions under ids that were not used before (`pendingID`).
use agentic_operator_core.Base.{
  ℕ, suc, Bool, Option, none, some, List, [], ◌∷◌, ◌++◌, ◌≡◌, ◌⊎◌, false,
}
use agentic_operator_core.Base.Text.{Text}
use agentic_operator_core.Base.Strings.{elem}
use agentic_operator_core.Approval.{Annotations}
use agentic_operator_core.Controller.{
  Workload, Status, PendingApproval, Receipt, Target, Prog, update, append, call, undecided,
}
use agentic_operator_core.Controller.Actions.{Surroundings, Reconciler, reconcile_approval}

-- A reconcile that runs: the version and the status of its copy of the object, and what is left to do.
pub record Thread : Type 0 where
  pub version : ℕ
  pub status : Status
  pub rest : Prog

pub record World : Type 0 where
  pub stored : Workload
  pub version : ℕ
  pub past : List (ℕ × Workload)
  pub threads : List Thread
  pub receipts : List Receipt
  pub calls : List (Text × Target)
  pub proposed : List Text

-- `wl` was stored as version `v`.
abbrev pub WasStored : ℕ → Workload → List (ℕ × Workload) → Type 0
WasStored v wl [] = ⊥
WasStored v wl (x ∷ l) = (x ≡ (v, wl)) ⊎ WasStored v wl l

-- What the API server does with an accepted status.
abbrev pub store : World → Status → World
store w st = record w {
  stored = record (w.stored) { status = st };
  version = suc w.version;
  past = (suc w.version, record (w.stored) { status = st }) ∷ w.past;
}

abbrev pub annotate : World → Annotations → World
annotate w ann = record w {
  stored = record (w.stored) { annotations = ann };
  version = suc w.version;
  past = (suc w.version, record (w.stored) { annotations = ann }) ∷ w.past;
}

abbrev pub fresh_pending : PendingApproval → PendingApproval
fresh_pending p = record p { state = undecided; decision = none }

module _ (env : Surroundings) (r : Reconciler) where
  pub data Step : World → World → Type 0 where
    start :
        (w : World) (v : ℕ) (wl : Workload) (p : PendingApproval)
        → WasStored v wl w.past
        → wl.status.pending ≡ some p
        → Step w (record w {
          threads =
              record { version = v; status = wl.status; rest = reconcile_approval env r wl p }
              ∷ w.threads;
        })
    stop :
        (w : World) (before after : List Thread) (t : Thread)
        → w.threads ≡ before ++ t ∷ after
        → Step w (record w { threads = before ++ after })
    accept :
        (w : World) (before after : List Thread) (t : Thread) (st : Status) (k : Prog)
        → w.threads ≡ before ++ t ∷ after
        → t.rest ≡ update st k
        → t.version ≡ w.version
        → Step w (record (store w st) {
          threads = before ++ record { version = suc w.version; status = st; rest = k } ∷ after;
        })
    write :
        (w : World) (before after : List Thread) (t : Thread) (x : Receipt) (k : Option ℕ → Prog)
        (reply : Option ℕ)
        → w.threads ≡ before ++ t ∷ after
        → t.rest ≡ append x k
        → Step w (record w {
          threads = before ++ record t { rest = k reply } ∷ after;
          receipts = x ∷ w.receipts;
        })
    execute :
        (w : World) (before after : List Thread) (t : Thread) (id : Text) (tgt : Target)
        (k : Bool → Prog) (reply : Bool)
        → w.threads ≡ before ++ t ∷ after
        → t.rest ≡ call id tgt k
        → Step w (record w {
          threads = before ++ record t { rest = k reply } ∷ after;
          calls = (id, tgt) ∷ w.calls;
        })
    edit : (w : World) (ann : Annotations) → Step w (annotate w ann)
    propose :
        (w : World) (st : Status) (p : PendingApproval)
        → elem p.id w.proposed ≡ false
        → st.pending ≡ some (fresh_pending p)
        → Step w (record (store w st) { proposed = p.id ∷ w.proposed })
    -- a status with the pending action that is stored
    keep : (w : World) (st : Status) → st.pending ≡ w.stored.status.pending → Step w (store w st)
    -- a status without a pending action
    clear : (w : World) (st : Status) → st.pending ≡ none → Step w (store w st)

  pub data Reachable : World → Type 0 where
    initial :
        (wl : Workload)
        → wl.status.pending ≡ none
        → Reachable (record {
          stored = wl;
          version = 0;
          past = (0, wl) ∷ [];
          threads = [];
          receipts = [];
          calls = [];
          proposed = [];
        })
    next : (w w' : World) → Reachable w → Step w w' → Reachable w'
