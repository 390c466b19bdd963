-- ===== src/Proxy/Keys.antt =====
-- src/proxy/proxy.c: how long the identifiers of connections differ, and a request waits.
use apus.Base.{
  ℕ, zero, suc, ◌+◌, ◌%◌, ◌^◌, ◌≤◌, ◌<◌, ◌≡◌, ◌↔◌, ap, sym, ◌∙◌, arith, true, some, leb→le, le→leb,
  add64, add64_of_lt,
}
use mathlib.Core.Option.{some-injective}
use apus.Proxy.State.{Proxy, SocketPair, HashTable, gen_key}
use apus.Proxy.Submit.{
  Request, new_pair, count_pair, leader_handle_submit_req, is_over, update_highest_rec, take_pair,
  put_request,
}
use apus.Proxy.Numbers.{known}

module _ {M : Type 0} where
  -- The state after this number of further connections.
  abbrev pub count_pairs : ℕ → Proxy M → Proxy M
  count_pairs zero p = p
  count_pairs (suc n) p = count_pair (count_pairs n p)

  pair_count-count :
      (n : ℕ) (p : Proxy M)
      → p.pair_count < 256
      → (count_pairs n p).pair_count ≡ (p.pair_count + n) % 256
  unfolding count_pair
  pair_count-count zero p h = omega (arith, h)
  pair_count-count (suc n) p h = omega (arith, pair_count-count n p h)

  -- A connection and the one n connections later have the same identifier exactly if 256 divides n.
  pub connection_id_iff :
      (node_id fd k n : ℕ) (p : Proxy M)
      → p.pair_count < 256
      → ((new_pair node_id fd p).connection_id
          ≡ (new_pair node_id k (count_pairs n p)).connection_id)
        ↔ (n % 256 ≡ 0)
  unfolding new_pair gen_key
  connection_id_iff node_id fd k n p h =
      let c = pair_count-count n p h in (λ e. omega (arith, e, c, h), λ e. omega (arith, e, c, h))

  -- The state after this number of requests have been applied.
  abbrev pub updates : ℕ → Proxy M → Proxy M
  updates zero p = p
  updates (suc n) p = update_highest_rec (updates n p)

  highest-updates :
      (n : ℕ) (p : Proxy M)
      → p.highest_rec + n < 2 ^ 64
      → (updates n p).highest_rec ≡ p.highest_rec + n
  unfolding update_highest_rec
  highest-updates zero p h = omega arith
  highest-updates (suc n) p h =
      let k = highest-updates n p (omega (arith, h)) in
      ap (λ x. add64 x 1) k ∙ add64_of_lt (p.highest_rec + n) 1 (omega (arith, h)) ∙ omega arith

module _ {M : Type 0} (table : HashTable M) where
  take-highest :
      (node_id fd : ℕ) (req : Request) (p : Proxy M) (t : SocketPair × Proxy M)
      → take_pair table node_id req fd p ≡ some t
      → t.1.highest_rec ≡ p.highest_rec
  unfolding take_pair count_pair
  take-highest node_id fd Request.connect p t h =
      sym (ap (λ z. z.1.highest_rec) (some-injective _ _ h))
  take-highest node_id fd (Request.send bytes) p t h =
      let (y, e, q) = known (table.find p.leader_hash_map fd) _ _ h in
      sym (ap (λ z. z.1.highest_rec) q)
  take-highest node_id fd Request.close p t h =
      let (y, e, q) = known (table.find p.leader_hash_map fd) _ _ h in
      sym (ap (λ z. z.1.highest_rec) q)

  -- Where a request that is submitted waits for the number n, the wait is over exactly once as many
  -- requests as were submitted before it, and one more, have been applied.
  pub submit-is_over :
      (node_id fd k n : ℕ) (req : Request) (p q : Proxy M)
      → leader_handle_submit_req table node_id req fd p ≡ some (n, q)
      → p.cur_rec + 1 < 2 ^ 64
      → p.highest_rec + k < 2 ^ 64
      → (is_over n (updates k q) ≡ true) ↔ (p.cur_rec + 1 ≤ p.highest_rec + k)
  unfolding leader_handle_submit_req is_over put_request
  submit-is_over node_id fd k n req p q h l m =
      let (t, e, u) =
        known (take_pair table node_id req fd (record p { cur_rec = add64 p.cur_rec 1 })) _ _ h in
      let number = sym (ap (λ z. z.0) u) ∙ add64_of_lt p.cur_rec 1 l in
      let highest = sym (ap (λ z. z.1.highest_rec) u) ∙ take-highest node_id fd req _ t e in
      let after = highest-updates k q (omega (arith, m, highest)) in
      (
        λ o. omega (arith, leb→le _ _ o, number, highest, after),
        λ o. le→leb _ _ (omega (arith, o, number, highest, after)),
      )
