-- ===== src/MessageQueue/Snapshot.antt =====
-- lib/message_queue: `create_snapshot`, and a queue made of a snapshot.
use peace.MessageQueue.{Message, RawMessageQueue, from_message, create_snapshot, message_from}
use peace.MessageQueue.{insert_data, from_snapshot, is_readed}
use peace.MessageQueue.Removal.{IsOrdered}
use peace.Base.{ℕ, suc, ◌≤◌, ◌<◌, arith}
use peace.Base.{◌≡◌, refl, sym, ap, ◌∙◌, none, List, [], ◌∷◌, ◌++◌, map, append-nil, append_assoc}
use peace.Base.Keys.{Eq}
use peace.Base.HashSet.{from_iter, contains-from_iter}
use peace.Base.BTreeMap.{insert, Ascends}

module _ {T K : Type 0} ⦃e : Eq K⦄ where
  -- The message that comes back: its readers once each, and no validator.
  abbrev pub restored : ℕ × Message T K → ℕ × Message T K
  restored (id, msg) =
      (id, record { content = msg.content; has_read = from_iter msg.has_read; validator = none })

  -- All the ids are below `k`.
  abbrev Under : ℕ → List (ℕ × Message T K) → Type 0
  Under k [] = Unit {0}
  Under k ((id, m) ∷ ms) = (id < k) × Under k ms

  insert_last :
      (id : ℕ) (m : Message T K) (ms : List (ℕ × Message T K))
      → Under id ms
      → insert id m ms ≡ ms ++ (id, m) ∷ []
  unfolding insert
  insert_last id m [] u = refl
  insert_last id m ((i, x) ∷ ms) u = ground (arith, insert_last id m ms u.1)

  Under-mono : (k k' : ℕ) (ms : List (ℕ × Message T K)) → k ≤ k' → Under k ms → Under k' ms
  Under-mono k k' [] h u = tt
  Under-mono k k' ((i, x) ∷ ms) h u = (omega arith, Under-mono k k' ms h u.1)

  Under-append :
      (k : ℕ) (ms : List (ℕ × Message T K)) (id : ℕ) (m : Message T K)
      → id < k
      → Under id ms
      → Under k (ms ++ (id, m) ∷ [])
  Under-append k [] id m h u = (h, tt)
  Under-append k ((i, x) ∷ ms) id m h u = (omega arith, Under-append k ms id m h u.1)

  insert_data-map :
      (ms acc : List (ℕ × Message T K)) (k : ℕ)
      → Ascends k ms
      → Under k acc
      → insert_data (map from_message ms) acc ≡ acc ++ map restored ms
  unfolding insert_data from_message message_from
  insert_data-map [] acc k a u = sym (append-nil acc)
  insert_data-map ((id, m) ∷ ms) acc k a u =
      let x = message_from (from_message (id, m)) in
      ap (insert_data (map from_message ms)) (insert_last id x acc (Under-mono k id acc a.0 u))
      ∙ insert_data-map ms (acc ++ (id, x) ∷ []) (suc id) a.1
          (Under-append (suc id) acc id x (omega arith) (Under-mono k id acc a.0 u))
      ∙ append_assoc acc ((id, x) ∷ []) (map restored ms)

  -- A queue made of the snapshot of an ordered queue has the same messages under the same ids, and
  -- to every reader they are read or not as before. The validators are lost.
  pub from_snapshot-create_snapshot :
      (q : RawMessageQueue T K)
      → IsOrdered q
      → ((from_snapshot (create_snapshot q)).messages ≡ map restored q.messages)
        × ((m : ℕ × Message T K) (reader : K)
            → is_readed (restored m).1 reader ≡ is_readed m.1 reader)
  unfolding from_snapshot create_snapshot
  from_snapshot-create_snapshot q a =
      (insert_data-map q.messages [] 0 a tt, λ m reader. contains-from_iter m.1.has_read reader)
