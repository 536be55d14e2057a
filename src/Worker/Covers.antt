-- ===== src/Worker/Covers.antt =====
-- Every kind that a worker is to run has a queue that serves it (core/worker.ts, `startWorker`).
use open_mercato_durable.Common.{
  ℕ, ◌*◌, ◌≤◌, ◌≡◌, refl, subst, sym, ap, ◌∙◌, ◌⊎◌, inl, inr, true, false, Option, none, some, List,
  [], ◌∷◌, ◌++◌, ◌==◌, coalesce, if◌then◌else◌, Bool-cases, arith,
}
use open_mercato_durable.Registry.Kinds.{ResolvedKind}
use open_mercato_durable.Worker.Bindings.{
  QueueBinding, WorkerOptions, select_kinds, add_kind, by_queue, max_of, slice_budget,
  concurrency_of, binding_for, bind_queues, tick_binding, bindings,
}

append_assoc {ℓ} : {A : Type ℓ} (xs ys zs : List A) → ((xs ++ ys) ++ zs) ≡ (xs ++ (ys ++ zs))
append_assoc [] ys zs = refl
append_assoc (x ∷ xs) ys zs = ap (λ l. x ∷ l) (append_assoc xs ys zs)

append_nil {ℓ} : {A : Type ℓ} (xs : List A) → (xs ++ []) ≡ xs
append_nil [] = refl
append_nil (x ∷ xs) = ap (λ l. x ∷ l) (append_nil xs)

-- What is bound for a queue.
unfoldable pub find_queue : ℕ → List QueueBinding → Option QueueBinding
find_queue q [] = none
find_queue q (b ∷ bs) = if b.queue == q then some b else find_queue q bs

coalesce_le : (c : Option ℕ) (x y : ℕ) → x ≤ y → coalesce c x ≤ coalesce c y
coalesce_le none x y h = h
coalesce_le (some n) x y h = omega arith

module _ {D : Type 0} where
  -- A kind stands in a list.
  abbrev pub In : ResolvedKind D → List (ResolvedKind D) → Type 0
  In k [] = ⊥
  In k (x ∷ xs) = (x ≡ k) ⊎ In k xs

  on_queue : ℕ → List (ResolvedKind D) → List (ResolvedKind D)
  on_queue q [] = []
  on_queue q (k ∷ ks) = if k.queue == q then k ∷ on_queue q ks else on_queue q ks

  find_group : ℕ → List (ℕ × List (ResolvedKind D)) → Option (List (ResolvedKind D))
  find_group q [] = none
  find_group q ((p, ks) ∷ gs) = if p == q then some ks else find_group q gs

  abbrev group_of : ℕ → List (ℕ × List (ResolvedKind D)) → List (ResolvedKind D)
  group_of q gs = coalesce (find_group q gs) []

  group_of-add_kind :
      (q : ℕ) (k : ResolvedKind D) (gs : List (ℕ × List (ResolvedKind D)))
      → group_of q (add_kind k gs) ≡ (group_of q gs ++ on_queue q (k ∷ []))
  unfolding find_group add_kind on_queue
  group_of-add_kind q k [] = elim (Bool-cases (k.queue == q)) [
    | inl own ↦ rw own refl
    | inr other ↦ rw other refl
  ]
  group_of-add_kind q k ((p, ks) ∷ gs) = elim (Bool-cases (p == k.queue)) [
    | inl same ↦ elim (Bool-cases (p == q)) [
      | inl own ↦ let e : (k.queue == q) ≡ true = ground arith in rw same (rw own (rw e refl))
      | inr other ↦
          let e : (k.queue == q) ≡ false = ground arith in
          rw same (rw other (rw e (sym (append_nil (group_of q gs)))))
    ]
    | inr different ↦ elim (Bool-cases (p == q)) [
      | inl own ↦
          let e : (k.queue == q) ≡ false = ground arith in
          rw different (rw own (rw e (sym (append_nil ks))))
      | inr other ↦ rw different (rw other (group_of-add_kind q k gs))
    ]
  ]

  on_queue-cons :
      (q : ℕ) (k : ResolvedKind D) (ks : List (ResolvedKind D))
      → (on_queue q (k ∷ []) ++ on_queue q ks) ≡ on_queue q (k ∷ ks)
  unfolding on_queue
  on_queue-cons q k ks = elim (Bool-cases (k.queue == q)) [
    | inl own ↦ rw own refl
    | inr other ↦ rw other refl
  ]

  group_of-by_queue :
      (q : ℕ) (ks : List (ResolvedKind D)) (gs : List (ℕ × List (ResolvedKind D)))
      → group_of q (by_queue gs ks) ≡ (group_of q gs ++ on_queue q ks)
  unfolding by_queue on_queue
  group_of-by_queue q [] gs = sym (append_nil (group_of q gs))
  group_of-by_queue q (k ∷ ks) gs =
      group_of-by_queue q ks (add_kind k gs)
      ∙ ap (λ l. l ++ on_queue q ks) (group_of-add_kind q k gs)
      ∙ append_assoc (group_of q gs) (on_queue q (k ∷ [])) (on_queue q ks)
      ∙ ap (λ l. group_of q gs ++ l) (on_queue-cons q k ks)

  In-on_queue :
      (k : ResolvedKind D) (ks : List (ResolvedKind D)) → In k ks → In k (on_queue k.queue ks)
  unfolding on_queue
  In-on_queue k [] h = h
  In-on_queue k (x ∷ ks) (inl same) =
      let own : (x.queue == k.queue) ≡ true = ground (arith, ap (λ y. y.queue) same) in
      rw own (inl same)
  In-on_queue k (x ∷ ks) (inr there) = elim (Bool-cases (x.queue == k.queue)) [
    | inl own ↦ rw own (inr (In-on_queue k ks there))
    | inr other ↦ rw other (In-on_queue k ks there)
  ]

  In-max_of :
      (f : ResolvedKind D → ℕ) (k : ResolvedKind D) (ks : List (ResolvedKind D))
      → In k ks
      → f k ≤ max_of f ks
  unfolding max_of
  In-max_of f k [] h = absurd h
  In-max_of f k (x ∷ ks) (inl same) = omega (arith, ap f same)
  In-max_of f k (x ∷ ks) (inr there) = omega (arith, In-max_of f k ks there)

  find_queue-bind_queues :
      (c : Option ℕ) (q : ℕ) (gs : List (ℕ × List (ResolvedKind D))) (after : List QueueBinding)
      (k : ResolvedKind D)
      → In k (group_of q gs)
      → find_queue q (bind_queues c gs after) ≡ some (binding_for c q (group_of q gs))
  unfolding find_queue bind_queues find_group
  find_queue-bind_queues c q [] after k h = absurd h
  find_queue-bind_queues c q ((p, ks) ∷ gs) after k h = elim (Bool-cases (p == q)) [
    | inl own ↦ let e : p ≡ q = ground arith in rw own (ap (λ x. some (binding_for c x ks)) e)
    | inr other ↦ rw other (find_queue-bind_queues c q gs after k (rw other at h))
  ]

  -- What serves a kind `k` of a worker whose options set the concurrency `c`, or leave it open.
  pub record Serves (c : Option ℕ) (bs : List QueueBinding) (k : ResolvedKind D) : Type 0 where
    pub binding : QueueBinding
    pub bound : find_queue k.queue bs ≡ some binding
    pub wide : coalesce c k.concurrency ≤ binding.concurrency
    pub patient : k.lease.slice_budget_ms * 2 ≤ binding.active_timeout_ms

  -- Every registered kind that a worker is asked to run has its queue bound, for at least as many
  -- handlers as the worker's options set, or as the kind asks for where they set none, and so that
  -- a delivery may be in flight for two of the kind's slices.
  pub bindings-Serves :
      (o : WorkerOptions) (registered : List (ResolvedKind D)) (k : ResolvedKind D)
      → In k (select_kinds o.kinds registered)
      → Serves o.concurrency (bindings o registered) k
  unfolding bindings binding_for
  bindings-Serves o registered k h =
      let ks = select_kinds o.kinds registered in
      let gs = by_queue [] ks in
      let group : group_of k.queue gs ≡ on_queue k.queue ks =
        unfold find_group in group_of-by_queue k.queue ks [] in
      let there : In k (group_of k.queue gs) = subst (In k) (sym group) (In-on_queue k ks h) in
      record {
        binding = binding_for o.concurrency k.queue (group_of k.queue gs);
        bound = find_queue-bind_queues o.concurrency k.queue gs (tick_binding o) k there;
        wide =
            coalesce_le o.concurrency k.concurrency (max_of concurrency_of (group_of k.queue gs))
              (In-max_of concurrency_of k (group_of k.queue gs) there);
        patient = omega (arith, In-max_of slice_budget k (group_of k.queue gs) there);
      }
