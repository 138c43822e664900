-- ===== src/Io/Mobs.antt =====
-- The message objects of the CAN controller in the loop `run` of avr/fw/main.cpp: each carries the
-- bytes of the process image between the end of the one before it and its own end. The controller
-- is outside: a received frame is its length code and the bytes that `CANMSG` gives, and what is
-- written to an object for sending is a frame.
use byt.Base.{
  ℕ, zero, suc, ◌+◌, ◌-◌, Bool, List, [], ◌∷◌, ◌&&◌, not, take, drop, ltb, if◌then◌else◌, get_or,
  set,
}
use byt.Pv.{Pv, is_mob_marked_tx, clear_mark_tx_mob}

-- What is written to an object: its number and its data.
pub record Frame : Type 0 where
  pub mob : ℕ
  pub bytes : List ℕ

-- `mobidx > 0 ? gMobEndIdx[mobidx-1] : 0`
unfoldable pub begin_idx : List ℕ → ℕ → ℕ
begin_idx ends zero = 0
begin_idx ends (suc m) = get_or ends m 0

unfoldable pub end_idx : List ℕ → ℕ → ℕ
end_idx ends mob = get_or ends mob 0

-- `while((idx < endIdx) && ((idx-beginIdx) < dlc)) gIOData[idx++] = CANMSG;`: the list holds the
-- bytes that the rest of the `dlc` reads of `CANMSG` give.
unfoldable pub copy_in : ℕ → ℕ → List ℕ → List ℕ → List ℕ
copy_in idx end_ [] d = d
copy_in idx end_ (b ∷ bs) d =
    let rest = copy_in (idx + 1) end_ bs (set d idx b) in if ltb idx end_ then rest else d

-- The branch of `run` for a frame received in `mob`, up to the copy.
unfoldable pub receive : List ℕ → ℕ → ℕ → List ℕ → Pv → Pv
unfolding begin_idx end_idx copy_in
receive ends mob dlc msg p = record p {
  io_data = copy_in (begin_idx ends mob) (end_idx ends mob) (take dlc msg) p.io_data;
}

-- `while(idx < endIdx) CANMSG = gIOData[idx++];`
unfoldable pub frame_of : List ℕ → ℕ → Pv → Frame
unfolding begin_idx end_idx
frame_of ends mob p = record {
  mob = mob;
  bytes = take (end_idx ends mob - begin_idx ends mob) (drop (begin_idx ends mob) p.io_data);
}

-- `n` rounds of the sending loop from the object `mob` on; `busy` is what `CANEN` shows.
unfoldable pub transmit : List ℕ → (ℕ → Bool) → ℕ → ℕ → Pv → List Frame × Pv
transmit ends busy zero mob p = ([], p)
transmit ends busy (suc n) mob p =
    let send = is_mob_marked_tx mob p && not (busy mob) in
    let (fs, q) = transmit ends busy n (mob + 1) (clear_mark_tx_mob mob p) in
    let (gs, r) = transmit ends busy n (mob + 1) p in
    if send then (frame_of ends mob p ∷ fs, q) else (gs, r)
