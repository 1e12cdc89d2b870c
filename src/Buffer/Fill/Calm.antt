-- ===== src/Buffer/Fill/Calm.antt =====
-- Where `malloc` will not refuse a node, it will not after `fill` either.
use cosc402_assignment.Base.{
  ℕ, zero, suc, ◌≡◌, refl, Bool, true, false, Option, none, some, List, [], ltb, if◌then◌else◌,
}
use cosc402_assignment.Base.Lists.{length, split_last}
use cosc402_assignment.Base.Outcome.{Outcome, done, fault, out_of_fuel, Returns, returns, ◌>>=◌}
use cosc402_assignment.Base.Words.{size_max, to_size}
use cosc402_assignment.Cache.{Cache, Pool, get_new_cache}
use cosc402_assignment.Buffer.Node.{Node, Buffer, Mem, new_node, new_node_with, store_bytes}
use cosc402_assignment.Buffer.Fill.{
  Pull, got, failed, Cursor, Lists, End, Result, next_node, after_store, after_pull, fill_loop,
  finish, roll_back, set_last_w, fill_new, fill_last, fill, write_into_buffer, needs_node, copy,
  settle, next_cursor,
}

-- `P` holds of what is returned, if anything is.
pub data OnDone {A : Type 0} (P : A → Type 0) : Outcome A → Type 0 where
  on_done : {a : A} → P a → OnDone P (done a)
  on_fault : OnDone P fault
  on_fuel : OnDone P out_of_fuel

pub both :
    {A : Type 0} {P Q : A → Type 0} {r : Outcome A}
    → Returns P r
    → OnDone Q r
    → Returns (λ a. P a × Q a) r
both (returns p) (on_done q) = returns (p, q)

OnDone-if :
    {A : Type 0} {P : A → Type 0} (f : Bool) {x y : Outcome A}
    → OnDone P x
    → OnDone P y
    → OnDone P (if f then x else y)
OnDone-if true a b = a
OnDone-if false a b = b

OnDone-bind :
    {A B : Type 0} {P : A → Type 0} {Q : B → Type 0} {r : Outcome A} {f : A → Outcome B}
    → OnDone P r
    → ((a : A) → P a → OnDone Q (f a))
    → OnDone Q (r >>= f)
OnDone-bind (on_done p) next = next _ p
OnDone-bind on_fault next = on_fault
OnDone-bind on_fuel next = on_fuel

abbrev pub IsCalm : Mem → Type 0
IsCalm m = m.answers ≡ []

new_node_with-IsCalm : (r : Option Cache × Pool) → IsCalm (new_node_with [] r).1
new_node_with-IsCalm (none, p) = refl
new_node_with-IsCalm (some c, p) = refl

new_node-IsCalm : (m : Mem) → IsCalm m → IsCalm (new_node m).1
unfolding new_node
new_node-IsCalm m e = rw (e, new_node) (new_node_with-IsCalm (get_new_cache 512 m.pool))

module _ {S : Type 0} (pull : ℕ → S → Pull S) (size : ℕ) where
  abbrev EndCalm : Outcome (End S) → Type 0
  EndCalm = OnDone (λ e. IsCalm e.mem)

  module _ (next : ℕ → Cursor → Mem → S → Outcome (End S))
      (follows : (already : ℕ) (c : Cursor) (m : Mem) (s : S)
        → IsCalm m
        → EndCalm (next already c m s)) where
    next_node-IsCalm :
        (already : ℕ) (l : Lists) (s : S) (y : Option Node × Mem)
        → IsCalm y.1
        → EndCalm (next_node pull next already l s y)
    next_node-IsCalm already l s (none, m) e = on_done e
    next_node-IsCalm already l s (some n, m) e = follows already (next_cursor l n) m s e

    after_store-IsCalm :
        (read_size already count : ℕ) (c : Cursor) (m : Mem) (s : S) (o : Option Node)
        → IsCalm m
        → EndCalm (after_store pull next size read_size already count c m s o)
    after_store-IsCalm read_size already count c m s none e = on_fault
    after_store-IsCalm read_size already count c m s (some n) e =
        OnDone-if _ (on_done e)
          (next_node-IsCalm _ (settle (record c { node = n })) s (new_node m) (new_node-IsCalm m e))

    after_pull-IsCalm :
        (read_size already : ℕ) (c : Cursor) (m : Mem) (y : Pull S)
        → IsCalm m
        → EndCalm (after_pull pull next size read_size already c m y)
    after_pull-IsCalm read_size already c m (failed ret s) e = on_done e
    after_pull-IsCalm read_size already c m (got bs s) e =
        after_store-IsCalm read_size already (length bs) c m s (store_bytes c.node bs) e

  fill_loop-IsCalm :
      (fuel already : ℕ) (c : Cursor) (m : Mem) (s : S)
      → IsCalm m
      → EndCalm (fill_loop pull fuel size already c m s)
  unfolding fill_loop
  fill_loop-IsCalm zero already c m s e = on_fuel
  fill_loop-IsCalm (suc fuel) already c m s e =
      OnDone-if (ltb already size)
        (after_pull-IsCalm (fill_loop pull fuel size) (fill_loop-IsCalm fuel) _ already c m _ e)
        (on_done e)

module _ {S : Type 0} where
  abbrev ResultCalm : Outcome (Result S) → Type 0
  ResultCalm = OnDone (λ r. IsCalm r.mem)

  roll_back-IsCalm :
      (e : End S) (o : Option (List Node)) → IsCalm e.mem → ResultCalm (roll_back e o)
  roll_back-IsCalm e none h = on_fault
  roll_back-IsCalm e (some b) h = on_done h

  finish-IsCalm : (last_w : ℕ) (e : End S) → IsCalm e.mem → ResultCalm (finish last_w e)
  finish-IsCalm last_w e h =
      OnDone-if e.broke (roll_back-IsCalm e (set_last_w last_w (split_last e.lists.buff)) h)
        (on_done h)

module _ {S : Type 0} (pull : ℕ → S → Pull S) (size : ℕ) where
  fill_new-IsCalm :
      (b : Buffer) (s : S) (y : Option Node × Mem)
      → IsCalm y.1
      → ResultCalm (fill_new pull size b s y)
  fill_new-IsCalm b s (none, m) e = on_done e
  fill_new-IsCalm b s (some n, m) e =
      OnDone-bind (fill_loop-IsCalm pull size (suc size) 0 _ m s e) (finish-IsCalm size_max)

  fill_last-IsCalm :
      (s : S) (m : Mem) (o : Option (List Node × Node))
      → IsCalm m
      → ResultCalm (fill_last pull size s m o)
  fill_last-IsCalm s m none e = on_fault
  fill_last-IsCalm s m (some (front, n)) e =
      OnDone-bind (fill_loop-IsCalm pull size (suc size) 0 _ m s e)
        (finish-IsCalm (to_size n.w_offset))

pub write_into_buffer-IsCalm :
    (b : Buffer) (src : List ℕ) (m : Mem)
    → IsCalm m
    → OnDone (λ r. IsCalm r.mem) (write_into_buffer b src m)
unfolding write_into_buffer fill
write_into_buffer-IsCalm b src m e =
    OnDone-if (needs_node (split_last b))
      (fill_new-IsCalm copy (length src) b src (new_node m) (new_node-IsCalm m e))
      (fill_last-IsCalm copy (length src) src m (split_last b) e)
