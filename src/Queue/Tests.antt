-- ===== src/Queue/Tests.antt =====
-- The theorems on src/shared/queue.c at a concrete queue.
use socks5proxy.Prelude.{ℕ, ◌-◌, ◌≡◌, true, some, List, [], ◌∷◌, ◌++◌, drop, arith}
use socks5proxy.Queue.{Queue, create_queue}
use socks5proxy.Queue.Window.{enqueue_all, enqueue_all-window}

enqueue_all-window_example :
    (q₀ q : Queue ℕ) × (freed : List ℕ) × (create_queue 2 true ≡ some q₀)
    × (enqueue_all q₀ (4 ∷ 5 ∷ 6 ∷ []) ≡ some (freed, q))
    × (q.nodes ≡ drop (3 - 2) (4 ∷ 5 ∷ 6 ∷ []))
    × (freed ++ q.nodes ≡ 4 ∷ 5 ∷ 6 ∷ [])
enqueue_all-window_example = enqueue_all-window 2 (4 ∷ 5 ∷ 6 ∷ []) (omega arith)
