-- ===== src/Demagnetizer/Numbers.antt =====
-- The random numbers that `Demagnetizer` of src/demagnetize/core.py draws, and the fields they are for.
use demagnetize.Prelude.{ℕ, ◌%◌, ◌+◌, ◌≤◌, ◌<◌, ◌^◌, Bool, arith, ltb, Bool-cases, inl, inr}
use demagnetize.Struct.Signed.{IsInt}
use demagnetize.Util.Random.{randint_about}
use demagnetize.Util.Identity.{IsPeerId, make_peer_id-IsPeerId}
use demagnetize.Trackers.Tracker.{Url}
use demagnetize.Trackers.Udp.Session.Packs.{Suits}
use demagnetize.Demagnetizer.{Demagnetizer, Draws, new_app, udp_context}

randint_about-IsInt : (r : ℕ) → IsInt 4 (randint_about (2 ^ 31) r)
randint_about-IsInt r = elim (Bool-cases (ltb (r % (2 ^ 31 + 2 ^ 31)) (2 ^ 31))) [
  | inl low ↦ rw low (omega arith)
  | inr high ↦ rw high (ground (arith, high))
]

-- An app fits: it has a peer ID, a port that is neither reserved nor out of range, and a key of four bytes.
pub record IsReadyApp (app : Demagnetizer) : Type 0 where
  pub peer_id : IsPeerId app.peer_id
  pub port_from : 1025 ≤ app.peer_port
  pub port_to : app.peer_port ≤ 65535
  pub key : app.key < 2 ^ 32

-- Whatever random numbers are drawn, the app has a peer ID of 20 bytes, the client's prefix with letters
-- and digits behind it, a port from 1025 to 65535 and a key below 2 ^ 32; and these, with the transaction
-- IDs that are drawn for any UDP tracker, fit the fields of an announcement.
pub new_app-Suits :
    (d : Draws) (u : Url) (is_ipv6 : Bool) (draw : ℕ → ℕ)
    → IsReadyApp (new_app d) × Suits (udp_context (new_app d) u is_ipv6 draw)
new_app-Suits d u is_ipv6 draw =
    let id = make_peer_id-IsPeerId d.peer_id in
    (
      record { peer_id = id; port_from = omega arith; port_to = omega arith; key = omega arith },
      record {
        peer_id = id.size;
        peer_port = omega arith;
        key = omega arith;
        draw = λ i. randint_about-IsInt (draw i);
      },
    )
