-- ===== src/Server/Stats/Slots.antt =====
-- internal/server/server.go, listenerLoop and handleConnection: who holds the slots that stats.go
-- counts. The listener is one goroutine and each connection has one, so the steps of the
-- handlers come between the listener's check of the limit and its reservation.
use dtail.Base.{
  ℕ, zero, suc, ◌+◌, ◌≤◌, ◌≡◌, refl, sym, ap, ◌∙◌, true, false, arith, ltb, leb_ℤ, ℤ, pos, negsuc,
  pos_part, sum_ℤ, inc, dec,
}
use dtail.Server.Stats.{
  Stats, new_stats, decrement_connections, reserve_pre_auth, release_pre_auth,
  promote_pre_auth_to_connection, has_connections, server_limit_exceeded,
}

-- Where the listener's loop stands: before the check, or between it and the reservation.
pub data Listener : Type 0 where
  accepting admitted : Listener

-- A running server: `handshaking` and `serving` are the handlers before and after the promotion.
pub record Server : Type 0 where
  pub stats : Stats
  pub listener : Listener
  pub handshaking : ℕ
  pub serving : ℕ

unfoldable pub new_server : ℤ → Server
unfolding new_stats
new_server max_connections = record {
  stats = new_stats max_connections;
  listener = accepting;
  handshaking = 0;
  serving = 0;
}

-- A step of the listener or of a handler.
pub data Step : Server → Server → Type 0 where
  refuse :
      (st : Stats) (h c : ℕ)
      → server_limit_exceeded st ≡ true
      → Step
          (record { stats = st; listener = accepting; handshaking = h; serving = c })
          (record { stats = st; listener = accepting; handshaking = h; serving = c })
  admit :
      (st : Stats) (h c : ℕ)
      → server_limit_exceeded st ≡ false
      → Step
          (record { stats = st; listener = accepting; handshaking = h; serving = c })
          (record { stats = st; listener = admitted; handshaking = h; serving = c })
  reserve :
      (st : Stats) (h c : ℕ)
      → Step
          (record { stats = st; listener = admitted; handshaking = h; serving = c })
          (record {
            stats = reserve_pre_auth st;
            listener = accepting;
            handshaking = suc h;
            serving = c;
          })
  fail :
      (st : Stats) (l : Listener) (h c : ℕ)
      → Step
          (record { stats = st; listener = l; handshaking = suc h; serving = c })
          (record { stats = release_pre_auth st; listener = l; handshaking = h; serving = c })
  promote :
      (st : Stats) (l : Listener) (h c : ℕ)
      → Step
          (record { stats = st; listener = l; handshaking = suc h; serving = c })
          (record {
            stats = promote_pre_auth_to_connection st;
            listener = l;
            handshaking = h;
            serving = suc c;
          })
  hang_up :
      (st : Stats) (l : Listener) (h c : ℕ)
      → Step
          (record { stats = st; listener = l; handshaking = h; serving = suc c })
          (record { stats = decrement_connections st; listener = l; handshaking = h; serving = c })

pub data Reachable (max_connections : ℤ) : Server → Type 0 where
  started : Reachable max_connections (new_server max_connections)
  stepped : (s t : Server) → Reachable max_connections s → Step s t → Reachable max_connections t

-- The slots that the listener has admitted and not reserved.
abbrev pub pending : Listener → ℕ
pending accepting = 0
pending admitted = 1

pub record IsCounted (max_connections : ℤ) (s : Server) : Type 0 where
  pub same_max : s.stats.max_connections ≡ max_connections
  pub counts_serving : s.stats.current_connections ≡ pos s.serving
  pub counts_handshaking : s.stats.pre_auth_connections ≡ pos s.handshaking
  pub within_limit : s.handshaking + s.serving + pending s.listener ≤ pos_part max_connections

sum_pos : (m n : ℕ) → sum_ℤ (pos m) (pos n) ≡ pos (n + m)
sum_pos m zero = ap pos (omega arith)
sum_pos m (suc n) = ap inc (sum_pos m n) ∙ ap pos (omega arith)

limit-sum :
    (max_connections : ℤ) (st : Stats) (h c : ℕ)
    → st.max_connections ≡ max_connections
    → st.current_connections ≡ pos c
    → st.pre_auth_connections ≡ pos h
    → server_limit_exceeded st ≡ leb_ℤ max_connections (pos (h + c))
unfolding server_limit_exceeded
limit-sum m st h c em ec eh = rw (em, ec, eh, sum_pos c h) refl

room : (m : ℤ) (n : ℕ) → leb_ℤ m (pos n) ≡ false → suc n ≤ pos_part m
room (pos m) n e = ground (arith, e)
room (negsuc m) n e = ground (arith, e)

-- The check lets a connection in only when there is room for one more.
limit-room :
    (max_connections : ℤ) (st : Stats) (h c : ℕ)
    → st.max_connections ≡ max_connections
    → st.current_connections ≡ pos c
    → st.pre_auth_connections ≡ pos h
    → server_limit_exceeded st ≡ false
    → suc (h + c) ≤ pos_part max_connections
limit-room m st h c em ec eh e = room m (h + c) (sym (limit-sum m st h c em ec eh) ∙ e)

started-IsCounted : (m : ℤ) → IsCounted m (new_server m)
unfolding new_server new_stats
started-IsCounted m = record {
  same_max = refl;
  counts_serving = refl;
  counts_handshaking = refl;
  within_limit = omega arith;
}

Step-IsCounted : (m : ℤ) {s t : Server} → Step s t → IsCounted m s → IsCounted m t
Step-IsCounted m (refuse st h c e) v = v
Step-IsCounted m (admit st h c e) v = record {
  same_max = v.same_max;
  counts_serving = v.counts_serving;
  counts_handshaking = v.counts_handshaking;
  within_limit =
      omega (arith, limit-room m st h c v.same_max v.counts_serving v.counts_handshaking e);
}
Step-IsCounted m (reserve st h c) v =
    unfold reserve_pre_auth in
    record {
      same_max = v.same_max;
      counts_serving = v.counts_serving;
      counts_handshaking = ap inc v.counts_handshaking;
      within_limit = omega (arith, v.within_limit);
    }
Step-IsCounted m (fail st l h c) v =
    unfold release_pre_auth in
    record {
      same_max = v.same_max;
      counts_serving = v.counts_serving;
      counts_handshaking = ap dec v.counts_handshaking;
      within_limit = omega (arith, v.within_limit);
    }
Step-IsCounted m (promote st l h c) v =
    unfold promote_pre_auth_to_connection in
    record {
      same_max = v.same_max;
      counts_serving = ap inc v.counts_serving;
      counts_handshaking = ap dec v.counts_handshaking;
      within_limit = omega (arith, v.within_limit);
    }
Step-IsCounted m (hang_up st l h c) v =
    unfold decrement_connections in
    record {
      same_max = v.same_max;
      counts_serving = ap dec v.counts_serving;
      counts_handshaking = v.counts_handshaking;
      within_limit = omega (arith, v.within_limit);
    }

-- However the listener and the handlers interleave, the counters are the numbers of the handlers
-- in each phase, and these, with a connection that is admitted and not yet counted, are at most
-- as many as the server allows.
pub Reachable-IsCounted : (m : ℤ) {s : Server} → Reachable m s → IsCounted m s
Reachable-IsCounted m started = started-IsCounted m
Reachable-IsCounted m (stepped s t r step) = Step-IsCounted m step (Reachable-IsCounted m r)

-- In every reachable state, the server reports open connections just when one is being served.
Reachable-has_connections :
    (m : ℤ) {s : Server} → Reachable m s → has_connections s.stats ≡ ltb 0 s.serving
unfolding has_connections
Reachable-has_connections m r = rw (Reachable-IsCounted m r).counts_serving refl
