-- ===== src/Sockets/Counting.antt =====
-- The interface `Sockets` can be met: random numbers that count up, and ports from 1026 on are free.
use rawdishfs.Base.{if◌then◌else◌, ltb, none, some, ℕ, ◌+◌}
use rawdishfs.Sockets.{Sockets}

abbrev pub counting : Sockets
counting = record {
  World = ℕ;
  rand = λ w. (w + 1, w);
  listen = λ w port. (w, if ltb 1025 port then some 7 else none);
}
