-- ===== src/Provider/Aws/QueueLaws.antt =====
-- Pointers of changes in the queue of provider/aws/aws.go.
use external_dns.Prelude.{
  All, All-append, All-map, List, Text, [], any, arith, eqb_iff, false, refl, suc, ℕ, ◌<◌, ◌∷◌, ◌≡◌,
  ◌≤◌,
}
use external_dns.Endpoint.Types.{Endpoint}
use external_dns.Plan.Rows.{at}
use external_dns.Plan.Types.{Changes}
use external_dns.Provider.Aws.Change.{new_change, new_changes}
use external_dns.Provider.Aws.Submit.{
  combined_changes, create_update_changes, find_changes_in_queue, is_queued, sort_updates,
}
use external_dns.Provider.Aws.Types.{
  AwsProvider, Numbers, Route53Change, Route53Changes, action_create, action_delete, action_upsert,
}

abbrev AtLeast : ℕ → Route53Change → Type 0
AtLeast n c = n ≤ c.address

module _ (numbers : Numbers) (p : AwsProvider) where
  -- The changes are allocated from the address on, and the next free one is behind them.
  Allocated : ℕ → Route53Changes × ℕ → Type 0
  Allocated at r = All (AtLeast at) r.0 × (at ≤ r.1)

  new_changes-Allocated :
      (eps : List Endpoint) (at : ℕ) (action : Text)
      → Allocated at (new_changes numbers p at action eps)
  unfolding Allocated new_changes new_change
  new_changes-Allocated [] at action = (tt, omega arith)
  new_changes-Allocated (ep ∷ eps) at action =
      let (hs, h) = new_changes-Allocated eps (suc at) action in
      ((omega arith, later at _ hs), omega (arith, h))
    where
      later : (n : ℕ) (cs : Route53Changes) → All (AtLeast (suc n)) cs → All (AtLeast n) cs
      later n cs hs = All-map (AtLeast (suc n)) (AtLeast n) (λ c h. omega (arith, h)) cs hs

  from_later : (n m : ℕ) (cs : Route53Changes) → n ≤ m → All (AtLeast m) cs → All (AtLeast n) cs
  from_later n m cs le hs = All-map (AtLeast m) (AtLeast n) (λ c h. omega (arith, h, le)) cs hs

  update-Allocated :
      (at : ℕ) (news olds : List Endpoint)
      → Allocated at (create_update_changes numbers p at news olds)
  unfolding Allocated create_update_changes
  update-Allocated at news olds =
      let u = sort_updates news olds in
      let (h1, l1) = new_changes-Allocated u.creates at action_create in
      let at1 = (new_changes numbers p at action_create u.creates).1 in
      let (h2, l2) = new_changes-Allocated u.updates at1 action_upsert in
      let at2 = (new_changes numbers p at1 action_upsert u.updates).1 in
      let (h3, l3) = new_changes-Allocated u.deletes at2 action_delete in
      (
        All-append (AtLeast at) _ _ (All-append (AtLeast at) _ _ h1 (from_later at at1 _ l1 h2))
            (from_later at at2 _ (omega (arith, l1, l2)) h3),
        omega (arith, l1, l2, l3),
      )

  combined-Allocated : (at : ℕ) (c : Changes) → Allocated at (combined_changes numbers p at c)
  unfolding Allocated combined_changes
  combined-Allocated at c =
      let (h1, l1) = update-Allocated at c.update_new c.update_old in
      let at1 = (create_update_changes numbers p at c.update_new c.update_old).1 in
      let (h2, l2) = new_changes-Allocated c.create at1 action_create in
      let at2 = (new_changes numbers p at1 action_create c.create).1 in
      let (h3, l3) = new_changes-Allocated c.delete at2 action_delete in
      (
        All-append (AtLeast at) _ _
            (All-append (AtLeast at) _ _ (from_later at at1 _ l1 h2)
              (from_later at at2 _ (omega (arith, l1, l2)) h3))
            h1,
        omega (arith, l1, l2, l3),
      )

-- allocated before
abbrev pub Before : ℕ → Route53Change → Type 0
Before n q = q.address < n

is_queued-Before :
    (at : ℕ) (queue : Route53Changes) (c : Route53Change)
    → All (Before at) queue
    → at ≤ c.address
    → is_queued queue c ≡ false
unfolding is_queued any
is_queued-Before at [] c hq hc = refl
is_queued-Before at (q ∷ queue) c (h, hq) hc =
    ground (arith, h, hc, eqb_iff q.address c.address, is_queued-Before at queue c hq hc)

none_found :
    (at : ℕ) (cs queue : Route53Changes)
    → All (Before at) queue
    → All (AtLeast at) cs
    → find_changes_in_queue cs queue ≡ ([], cs)
unfolding find_changes_in_queue
none_found at [] queue hq hs = refl
none_found at (c ∷ cs) queue hq (hc, hs) =
    rw (none_found at cs queue hq hs, is_queued-Before at queue c hq hc) refl

-- The changes that `ApplyChanges` makes are never found in a queue of changes that were allocated
-- before, since the queue is searched by pointer: none is taken as retried.
pub combined_changes-fresh :
    (numbers : Numbers) (p : AwsProvider) (at : ℕ) (c : Changes) (queue : Route53Changes)
    → All (Before at) queue
    → find_changes_in_queue (combined_changes numbers p at c).0 queue
      ≡ ([], (combined_changes numbers p at c).0)
unfolding Allocated
combined_changes-fresh numbers p at c queue hq =
    none_found at _ queue hq (combined-Allocated numbers p at c).0
