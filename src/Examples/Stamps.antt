-- ===== src/Examples/Stamps.antt =====
-- Time stamps, and sockets that are made.
use tdm.Base.{refl, ℕ, ◌≡◌, true, false, some, List, [], ◌∷◌}
use tdm.Base.Int.{pos}
use tdm.Sock.Opening.{
  IsAccounted, err_connect, leaves, connect_to_server, connect_to_server_time_out,
  create_listen_service, accept_connection, connect_to_process, create_listen_process,
  accept_process_connection, opening-IsAccounted,
}
use tdm.Handlers.{Leaving, coding_with_log_out, log_outs}
use tdm.Handlers.LogOut.{IsSpaced, last_of, log_outs-IsSpaced}
use tdm.TimeComm.Stamps.{}
use tdm.TimeComm.Stamps.Fields.{}

opening-IsAccounted_example :
    (IsAccounted (some 7) (create_listen_service (some 7) true false true)
      × (IsAccounted (some 7) (connect_to_process (some 7) true)
          × (IsAccounted (some 7) (create_listen_process (some 7) true false)
              × (IsAccounted (some 7) (accept_connection (some 7) true)
                  × IsAccounted (some 7) (accept_process_connection (some 7))))))
    × ((IsAccounted (some 7) (connect_to_server (some 7) true)
          × IsAccounted (some 7) (connect_to_server_time_out (some 7) true true))
        × ((connect_to_server (some 8) false ≡ leaves err_connect)
            × (connect_to_server_time_out (some 8) false true ≡ leaves err_connect)))
opening-IsAccounted_example = opening-IsAccounted (some 7) 8 true false true

-- Log-outs at 100, 110, 126 and 130.
abbrev leaving : Leaving
leaving = record { fd1 = pos 9; socket_spm = pos 5; outtime = 0 }

abbrev log_out_times : List ℕ
log_out_times = 100 ∷ 110 ∷ 126 ∷ 130 ∷ []

logged_twice : (log_outs log_out_times leaving).1 ≡ 100 ∷ 126 ∷ []
unfolding log_outs coding_with_log_out
logged_twice = refl

log_outs-IsSpaced_example :
    IsSpaced leaving.outtime (log_outs log_out_times leaving).1
    × ((log_outs log_out_times leaving).0.outtime
        ≡ last_of leaving.outtime (log_outs log_out_times leaving).1)
log_outs-IsSpaced_example = log_outs-IsSpaced log_out_times leaving
