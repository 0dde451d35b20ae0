-- ===== src/Tests/Handshake.antt =====
-- `PeerConnection.handshake` at a concrete input.
use demagnetize.Prelude.{◌++◌, [], ◌∷◌, codes, Bytes}
use demagnetize.Peer.Extensions.{empty}
use demagnetize.Peer.Handshake.{Handshake}
use demagnetize.Peer.Connection.{PeerConnection}

abbrev torrent : Bytes
torrent = codes "aaaaabbbbbcccccddddd"

abbrev peer_id : Bytes
peer_id = codes "-DM-0030-xxxxxxxxxxx"

abbrev conn : PeerConnection
conn = record {
  info_hash = torrent;
  extensions = [];
  remote_bep10_registry = empty;
  incoming =
      19 ∷ codes "BitTorrent protocol"
      ++ (0 ∷ 0 ∷ 0 ∷ 0 ∷ 0 ∷ 16 ∷ 0 ∷ 5 ∷ codes "aaaaabbbbbcccccddddd-TR3000-vfu1svh0ewb6more");
  outgoing = [];
  accepts = 9;
}

abbrev shaken : PeerConnection
shaken = record {
  info_hash = torrent;
  extensions = 20 ∷ 2 ∷ [];
  remote_bep10_registry = empty;
  incoming = codes "more";
  outgoing =
      (19 ∷ codes "BitTorrent protocol"
        ++ (0 ∷ 0 ∷ 0 ∷ 0 ∷ 0 ∷ 16 ∷ 0 ∷ 4 ∷ codes "aaaaabbbbbcccccddddd-DM-0030-xxxxxxxxxxx"))
      ∷ (0 ∷ 0 ∷ 0 ∷ 35 ∷ 20 ∷ 0 ∷ codes "d1:md11:ut_metadatai42ee1:v3:abce")
      ∷ (0 ∷ 0 ∷ 0 ∷ 1 ∷ 15 ∷ [])
      ∷ [];
  accepts = 6;
}
