-- ===== src/Respond/Tests.antt =====
-- The handler's loop at work on the example.
use nedomi.Prelude.{ℕ, ◌≡◌, false, some, take, drop, arith}
use nedomi.Respond.{Response}
use nedomi.Respond.Lazily.{lazily_respond}
use nedomi.Respond.Loop.{IsAnswer, lazily_respond-IsAnswer}
use nedomi.Respond.Up.{lazily_respond-whole}
use nedomi.Respond.Examples.{object, server, server-IsFaithful, server-IsUp}

-- Bytes 1 to 5: the storage's part with what is missing before it, cut at both ends.
lazily_respond-whole_example :
    (r : Response ℕ ℕ) × (lazily_respond server 1 5 2 0 ≡ some r)
    × (r.sent ≡ take 5 (drop 1 object))
    × (r.stopped ≡ false)
lazily_respond-whole_example =
    lazily_respond-whole server object server-IsFaithful server-IsUp 1 5 (omega arith) (omega arith)
      (omega arith) 2 0 (omega arith)

lazily_respond-IsAnswer_example :
    (r : Response ℕ ℕ) × (lazily_respond server 4 6 2 0 ≡ some r) × IsAnswer object 4 3 r
lazily_respond-IsAnswer_example =
    lazily_respond-IsAnswer server object server-IsFaithful 4 6 (omega arith) (omega arith)
      (omega arith) 2 0 (omega arith)
