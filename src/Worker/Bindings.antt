-- ===== src/Worker/Bindings.antt =====
-- The queues that a worker binds (core/worker.ts, `startWorker`), with what each binding asks of the
-- transport: how many handlers at once, and how long a delivery may be in flight.
use open_mercato_durable.Common.{
  ℕ, ◌*◌, max, Bool, true, false, ◌||◌, Option, none, some, List, [], ◌∷◌, ◌++◌, ◌==◌, coalesce,
  if◌then◌else◌,
}
use open_mercato_durable.Registry.Kinds.{ResolvedKind}

pub record QueueBinding : Type 0 where
  pub queue : ℕ
  pub concurrency : ℕ
  pub active_timeout_ms : ℕ

-- `WorkerOptions`, as far as it decides what is bound; the queue of the tick is a text.
pub record WorkerOptions : Type 0 where
  pub kinds : Option (List ℕ)
  pub concurrency : Option ℕ
  pub tick_ms : Option ℕ
  pub reconcile_queue : ℕ

unfoldable pub includes : ℕ → List ℕ → Bool
includes k [] = false
includes k (x ∷ xs) = x == k || includes k xs

abbrev pub is_selected : Option (List ℕ) → ℕ → Bool
is_selected none k = true
is_selected (some ks) k = includes k ks

-- The tick comes last, unless it is turned off.
abbrev pub tick_binding : WorkerOptions → List QueueBinding
tick_binding o =
    if coalesce o.tick_ms 15000 == 0
    then []
    else record { queue = o.reconcile_queue; concurrency = 1; active_timeout_ms = 120000 } ∷ []

module _ {D : Type 0} where
  unfoldable pub select_kinds : Option (List ℕ) → List (ResolvedKind D) → List (ResolvedKind D)
  unfolding includes
  select_kinds only [] = []
  select_kinds only (k ∷ ks) =
      if is_selected only k.kind then k ∷ select_kinds only ks else select_kinds only ks

  -- A kind joins the kinds of its queue, in the order of the queues' first kinds.
  unfoldable pub add_kind :
      ResolvedKind D → List (ℕ × List (ResolvedKind D)) → List (ℕ × List (ResolvedKind D))
  add_kind k [] = (k.queue, k ∷ []) ∷ []
  add_kind k ((q, ks) ∷ gs) =
      if q == k.queue then (q, ks ++ k ∷ []) ∷ gs else (q, ks) ∷ add_kind k gs

  unfoldable pub by_queue :
      List (ℕ × List (ResolvedKind D)) → List (ResolvedKind D) → List (ℕ × List (ResolvedKind D))
  unfolding add_kind
  by_queue gs [] = gs
  by_queue gs (k ∷ ks) = by_queue (add_kind k gs) ks

  -- `Math.max(…)` of a list that is not empty.
  unfoldable pub max_of : (ResolvedKind D → ℕ) → List (ResolvedKind D) → ℕ
  max_of f [] = 0
  max_of f (k ∷ ks) = max (f k) (max_of f ks)

  abbrev pub slice_budget : ResolvedKind D → ℕ
  slice_budget k = k.lease.slice_budget_ms

  abbrev pub concurrency_of : ResolvedKind D → ℕ
  concurrency_of k = k.concurrency

  unfoldable pub binding_for : Option ℕ → ℕ → List (ResolvedKind D) → QueueBinding
  unfolding max_of
  binding_for concurrency q ks = record {
    queue = q;
    concurrency = coalesce concurrency (max_of concurrency_of ks);
    active_timeout_ms = max_of slice_budget ks * 2;
  }

  unfoldable pub bind_queues :
      Option ℕ → List (ℕ × List (ResolvedKind D)) → List QueueBinding → List QueueBinding
  unfolding binding_for
  bind_queues concurrency [] after = after
  bind_queues concurrency ((q, ks) ∷ gs) after =
      binding_for concurrency q ks ∷ bind_queues concurrency gs after

  unfoldable pub bindings : WorkerOptions → List (ResolvedKind D) → List QueueBinding
  unfolding select_kinds by_queue bind_queues
  bindings o registered =
      bind_queues o.concurrency (by_queue [] (select_kinds o.kinds registered)) (tick_binding o)
