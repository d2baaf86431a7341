-- ===== src/Tests/Writers.antt =====
-- The output writers of the server, in front of a writer that takes one byte at a time.
use dtail.Base.{
  ℕ, sym, append-nil, take, ◌≡◌, refl, false, List, [], ◌∷◌, ◌++◌, Option, none, some, arith, Bytes,
  codes,
}
use dtail.Wire.Output.{
  Settings, Writer, DirectWriter, new_direct_writer, next_write, write_loop, emptied, flush_buffer,
  writer_flushed, flushed_writer, flush,
}
use dtail.Wire.Output.Emitted.{
  Call, line_data, server_message, flush_call, emitted_all, stream, called, next_call, run,
  run-emitted,
}
use dtail.Wire.Output.Delivered.{MakesProgress, run-delivered}
use dtail.Wire.Output.Network.{
  NetworkWriter, new_network_writer, network_line, append_line, Reachable, fresh, then_step,
  write_line, through, payload_bytes, Reachable-ordered,
}

abbrev write_one : Bytes → Bytes → Bytes × ℕ × Option ℕ
write_one [] w = (w, 0, none)
write_one (c ∷ bytes) w = (w ++ c ∷ [], 1, none)

write_one-taken :
    (bytes w : Bytes) → (write_one bytes w).0 ≡ w ++ take ((write_one bytes w).1) bytes
write_one-taken [] w = sym (append-nil w)
write_one-taken (c ∷ bytes) w = refl

abbrev slow : Writer Bytes ℕ
slow = record {
  write = write_one;
  flush = λ w. (w, none);
  taken = λ w. w;
  write-taken = write_one-taken;
  flush-taken = λ w. refl;
}

abbrev settings : Settings
settings = record {
  hostname = codes "web";
  plain = false;
  serverless = false;
  generation = 1;
  buf_size = 30;
}

abbrev uncolored : Bytes → Bytes
uncolored s = s

abbrev calls : List Call
calls =
    line_data (some 1) (codes "one") 1 (codes "a.log")
    ∷ line_data (some 2) (codes "stale") 2 (codes "a.log")
    ∷ server_message none (codes ".syn close connection")
    ∷ []

slow-progress : MakesProgress slow uncolored settings
slow-progress = (λ c bytes w. (omega arith, refl), λ w. refl)

run-delivered_example :
    (d : DirectWriter Bytes) × (d2 : DirectWriter Bytes) × (run slow uncolored settings calls
        (new_direct_writer [])
      ≡ some (d, false))
    × (called slow uncolored settings flush_call d ≡ some (d2, false))
    × (d2.writer ≡ [] ++ emitted_all slow uncolored settings calls)
run-delivered_example = run-delivered slow uncolored settings calls [] slow-progress

abbrev busy : DirectWriter Bytes
busy = record { writer = codes "a"; write_buf = codes "b"; lines_written = 1; bytes_written = 1 }

abbrev idle : DirectWriter Bytes
idle = record { writer = codes "ab"; write_buf = []; lines_written = 1; bytes_written = 1 }

run-busy : run slow uncolored settings (flush_call ∷ []) busy ≡ some (idle, false)
unfolding run next_call flush flush_buffer flushed_writer writer_flushed emptied write_loop
    next_write
run-busy = refl

run-emitted_example :
    stream slow uncolored settings idle
    ≡ stream slow uncolored settings busy ++ emitted_all slow uncolored settings (flush_call ∷ [])
run-emitted_example = run-emitted slow uncolored settings (flush_call ∷ []) busy idle run-busy

abbrev line : Bytes
line = network_line settings (codes "one") 1 (codes "a.log")

abbrev with_line : NetworkWriter
with_line = append_line settings line new_network_writer

with_line-Reachable : Reachable settings with_line line
with_line-Reachable =
    then_step fresh (write_line (codes "one") 1 (codes "a.log") new_network_writer)

Reachable-ordered_example :
    (through with_line ≡ line)
    × (with_line.sending ≡ false
        → with_line.write_buf ≡ []
        → payload_bytes with_line.payloads ≡ line)
Reachable-ordered_example = Reachable-ordered settings with_line line with_line-Reachable
