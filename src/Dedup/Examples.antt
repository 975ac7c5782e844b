-- ===== src/Dedup/Examples.antt =====
-- The window of one client at work.
use pubsub_broker.Base.{ℕ, ◌≡◌, refl, true, some, [], ◌∷◌, arith}
use pubsub_broker.Base.Bytes.{bytes_comparable}
use pubsub_broker.Base.Int.{pos}
use pubsub_broker.Base.Maps.{lookup}
use pubsub_broker.Dedup.Window.{
  DedupWindow, new_dedup_window, mark, is_duplicate, lookup_offset, client_window,
  new_client_window,
}
use pubsub_broker.Dedup.Clients.{IsDedup, Marking, mark_all, mark_remembered}

abbrev small_window : DedupWindow
small_window = new_dedup_window (pos 2)

small_window-IsDedup : IsDedup small_window
unfolding new_dedup_window client_window lookup new_client_window
small_window-IsDedup client = ((omega arith, refl), refl)

abbrev marking : ℕ → ℕ → Marking
marking who seq = record { client = who ∷ []; seq = seq; offset = pos 0 }

mark_remembered_example :
    (lookup_offset
        (mark_all (mark small_window (7 ∷ []) 1 (pos 40)) (marking 8 1 ∷ marking 7 2 ∷ []))
        (7 ∷ [])
        1
      ≡ some (pos 40))
    × (is_duplicate
          (mark_all (mark small_window (7 ∷ []) 1 (pos 40)) (marking 8 1 ∷ marking 7 2 ∷ []))
          (7 ∷ [])
          1
        ≡ true)
unfolding new_dedup_window
mark_remembered_example =
    mark_remembered small_window (7 ∷ []) 1 (pos 40) (marking 8 1 ∷ marking 7 2 ∷ [])
      small_window-IsDedup (unfold is_duplicate lookup in refl) (omega arith)
      ((λ e. absurd (let f : ◌≡◌ {A = ℕ} 8 7 = cc in omega arith)), ((λ e f. omega arith), tt))
