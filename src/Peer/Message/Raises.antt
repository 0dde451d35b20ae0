-- ===== src/Peer/Message/Raises.antt =====
-- The exceptions of `Message.parse` of src/demagnetize/peer/messages.py.
use demagnetize.Prelude.{
  ℕ, ◌-◌, ◌≤◌, ◌≡◌, List, [], ◌∷◌, arith, Bytes, All, length, drop, ◌==◌, length-drop, Bool-cases,
  inl, inr,
}
use demagnetize.Errors.{Error, Result, ok, err, value_error}
use demagnetize.Peer.Message.{
  Message, choke, unchoke, interested, not_interested, have_all, have_none, bitfield, of_length,
  klasses, from_klass, parse_body, parse, piece_from_payload, extended_from_payload,
  port_from_payload, index_from_payload, block_from_payload,
}

-- What a class raises.
abbrev RaisesValueError : ℕ × (Bytes → Result Message) → Type 0
RaisesValueError (code, from_payload) =
    (p : Bytes) (e : Error) → from_payload p ≡ err e → e ≡ value_error

of_length-err :
    (n : ℕ) (p : Bytes) (m : Message) (e : Error) → of_length n p m ≡ err e → e ≡ value_error
unfolding of_length
of_length-err n p m e h = ground arith

piece-err : RaisesValueError (7, piece_from_payload)
unfolding piece_from_payload
piece-err p e h = ground arith

extended-err : RaisesValueError (20, extended_from_payload)
unfolding extended_from_payload
extended-err [] e h = cc
extended-err (b ∷ p) e h = cc

never_err : (code : ℕ) (f : Bytes → Message) → RaisesValueError (code, λ p. ok (f p))
never_err code f p e h = cc

klasses-err : All RaisesValueError klasses
unfolding klasses index_from_payload block_from_payload port_from_payload
klasses-err = (
  λ p. of_length-err 4 p _,
  (
    never_err 5 bitfield,
    (
      λ p. of_length-err 12 p _,
      (
        piece-err,
        (
          λ p. of_length-err 12 p _,
          (
            λ p. of_length-err 2 p _,
            (
              λ p. of_length-err 12 p _,
              (
                λ p. of_length-err 4 p _,
                (
                  λ p. of_length-err 4 p _,
                  (
                    extended-err,
                    (
                      never_err 0 (λ _. choke),
                      (
                        never_err 1 (λ _. unchoke),
                        (
                          never_err 2 (λ _. interested),
                          (
                            never_err 3 (λ _. not_interested),
                            (never_err 0x0E (λ _. have_all), (never_err 0x0F (λ _. have_none), tt)),
                          ),
                        ),
                      ),
                    ),
                  ),
                ),
              ),
            ),
          ),
        ),
      ),
    ),
  ),
)

from_klass-err :
    (ks : List (ℕ × (Bytes → Result Message))) (mtype : ℕ) (p : Bytes) (e : Error)
    → All RaisesValueError ks
    → from_klass ks mtype p ≡ err e
    → e ≡ value_error
unfolding from_klass
from_klass-err [] mtype p e r h = cc
from_klass-err ((code, f) ∷ ks) mtype p e (r, rs) h = elim (Bool-cases (code == mtype)) [
  | inl same ↦ r p e (rw same at h)
  | inr other ↦ from_klass-err ks mtype p e rs (rw other at h)
]

-- On a frame of five bytes or more, `Message.parse` raises nothing but a `ValueError`.
pub parse-eq-err :
    (blob : Bytes) (e : Error) → 5 ≤ length blob → parse blob ≡ err e → e ≡ value_error
unfolding parse parse_body
parse-eq-err blob e long h = go (drop 4 blob) (length-drop 4 blob) h
  where
    go : (s : Bytes) → length s ≡ length blob - 4 → parse_body s ≡ err e → e ≡ value_error
    go [] len k = absurd (omega arith)
    go (mtype ∷ p) len k = from_klass-err klasses mtype p e klasses-err k
