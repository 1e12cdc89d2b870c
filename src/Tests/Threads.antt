-- ===== src/Tests/Threads.antt =====
-- The theorems on the threads of the server, applied to states that they reach.
use cosc402_assignment.Base.{◌≡◌, refl, true, [], ◌∷◌}
use cosc402_assignment.Server.Threads.{
  start, with_newcomer, Reach, at_start, later, reads, writes, listens, take_entries, polls,
  print_socket, no_event, fetches, marks, round_ends, take_clients, takes_line, resting, idle,
  Shared, update,
}
use cosc402_assignment.Server.Threads.Races.{
  writer_uses_live, reader_serves_live, IsServed, for_events, stale_client-UsesFreed, UsesFreed,
  at_place,
}

-- Clients at 100 and 200 with the descriptors 4 and 5.
abbrev two_clients : Shared
two_clients = with_newcomer 200 5 (with_newcomer 100 4 start.shared)

two_clients-Reach : Reach (at_place two_clients resting idle)
two_clients-Reach = later (later at_start (listens 100 4 refl refl)) (listens 200 5 refl refl)

writer_uses_live_example : two_clients.live 100 ≡ true
writer_uses_live_example = writer_uses_live 100 (later two_clients-Reach (writes take_clients)) refl

-- The reading thread has taken a line of the client at 100.
reader_serves_live_example : IsServed two_clients 100
reader_serves_live_example =
    reader_serves_live 100
      (later
        (later
          (later
            (later (later (later two_clients-Reach (reads take_entries)) (reads print_socket))
              (reads print_socket))
            (reads polls))
          (reads fetches))
        (reads takes_line))
      refl

-- The connection of the client at 200 is over, and the reading thread has marked it.
abbrev one_marked : Shared
one_marked = record two_clients { marked = update two_clients.marked 200 true }

one_marked-Reach : Reach (at_place one_marked resting idle)
one_marked-Reach =
    later
      (later
        (later
          (later
            (later (later (later two_clients-Reach (reads take_entries)) (reads print_socket))
              (reads print_socket))
            (reads polls))
          (reads no_event))
        (reads marks))
      (reads round_ends)

stale_client-UsesFreed_example : UsesFreed (at_place one_marked resting idle) 200
stale_client-UsesFreed_example =
    stale_client-UsesFreed one_marked resting (100 ∷ []) [] 200 one_marked-Reach for_events refl
      (refl, tt) refl
