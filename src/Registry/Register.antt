-- ===== src/Registry/Register.antt =====
-- The registry of kinds (core/registry.ts, `KindRegistry`): a map in insertion order.
use open_mercato_durable.Common.{
  ℕ, Bool, false, not, Option, none, some, List, [], ◌∷◌, ◌==◌, if◌then◌else◌, max, ◌||◌, is_null,
}
use open_mercato_durable.Registry.Kinds.{KindDefinition, ResolvedKind, resolve_kind}

abbrev pub KindRegistry : Type 0 → Type 0
KindRegistry D = List (ResolvedKind D)

-- `no_way_back` and `duplicate_kind` are the two throws.
pub data RegisterResult (D : Type 0) : Type 0 where
  registered : KindRegistry D → RegisterResult D
  no_way_back : RegisterResult D
  duplicate_kind : RegisterResult D

contains : ℕ → List ℕ → Bool
contains q [] = false
contains q (p ∷ ps) = p == q || contains q ps

module _ {D : Type 0} where
  unfoldable pub get : ℕ → KindRegistry D → Option (ResolvedKind D)
  get k [] = none
  get k (r ∷ rs) = if r.kind == k then some r else get k rs

  -- `Map.set`: a key that is there keeps its place.
  unfoldable pub put : ResolvedKind D → KindRegistry D → KindRegistry D
  put k [] = k ∷ []
  put k (r ∷ rs) = if r.kind == k.kind then k ∷ rs else r ∷ put k rs

  unfoldable pub register : KindDefinition D → KindRegistry D → RegisterResult D
  unfolding get put
  register d rs = elim (resolve_kind d) [
    | none ↦ no_way_back
    | some k ↦ elim (get d.kind rs) [
      | none ↦ registered (put k rs)
      | some old ↦
          if old.step_id == d.handlers.step_id then registered (put k rs) else duplicate_kind
    ]
  ]

  abbrev pub has : ℕ → KindRegistry D → Bool
  has k rs = not (is_null (get k rs))

  collect : List ℕ → KindRegistry D → List ℕ
  unfolding contains
  collect seen [] = []
  collect seen (r ∷ rs) =
      let rest = collect (r.queue ∷ seen) rs in
      let same = collect seen rs in if contains r.queue seen then same else r.queue ∷ rest

  -- The distinct queues, in the order of their first kind.
  unfoldable pub queues : KindRegistry D → List ℕ
  unfolding collect
  queues = collect []

  -- The widest tolerance that a registered kind declares for a pending job.
  unfoldable pub widest : KindRegistry D → ℕ
  widest [] = 0
  widest (r ∷ rs) = max r.lease.pending_ttl_ms (widest rs)
