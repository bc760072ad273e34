-- ===== src/Backend/Stale.antt =====
-- The mark of a client that is to be disconnected, and the next client in its slot.
use google_test_c_programs.Base.{ℕ, ◌≡◌, refl, true, false}
use google_test_c_programs.Backend.{db_server, bank_server, Peer}
use google_test_c_programs.Backend.Clients.{init_peer, new_peer, is_open, open_peer, drop_peer}

-- When a client was disconnected for an invalid request, the next client that takes its slot is
-- new for the database server, which does not disconnect it at the next event, but the bank server
-- disconnects it too, since the mark of the client before it is still there.
pub drop_peer-stale :
    (p : Peer) (fd : ℕ)
    → is_open p ≡ true
    → p.disconnect ≡ true
    → (drop_peer db_server (open_peer fd (drop_peer db_server p)) ≡ open_peer fd new_peer)
      × (is_open (drop_peer bank_server (open_peer fd (drop_peer bank_server p))) ≡ false)
unfolding init_peer
drop_peer-stale p fd up marked = (rw (up, marked) refl, rw (up, marked) refl)
