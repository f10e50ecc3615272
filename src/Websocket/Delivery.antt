-- ===== src/Websocket/Delivery.antt =====
-- websocket/connection.go: the payloads that masked frames carry.
use kupool.Common.{Bytes, ℕ, ◌≡◌, refl, true, List, [], ◌∷◌, ◌++◌}
use kupool.Frame.{Frame}
use kupool.Channel.{Channel, read_loop}
use kupool.Channel.Delivery.{messages, read_loop-messages}
use kupool.Websocket.{RawFrame, Ws, get_op_code, get_payload}

module _ {C : Type 0} (ws : Ws C) where
  -- The frame of the transport that the reading loop of a channel sees.
  abbrev pub seen : RawFrame → Frame
  seen f = record { op_code = get_op_code f; payload = (get_payload ws f).0 }

  abbrev pub seen_all : List RawFrame → List Frame
  seen_all [] = []
  seen_all (f ∷ fs) = seen f ∷ seen_all fs

  -- A frame as a peer sends it under a mask.
  abbrev pub masked : ℕ → Bytes → Bytes → RawFrame
  masked code mask payload = record {
    header = record { op_code = code; masked = true; mask = mask };
    payload = ws.cipher payload mask;
  }

  abbrev pub masked_all : List (Bytes × Frame) → List RawFrame
  masked_all [] = []
  masked_all ((mask, f) ∷ fs) = masked f.op_code mask f.payload ∷ masked_all fs

  abbrev pub plain_all : List (Bytes × Frame) → List Frame
  plain_all [] = []
  plain_all ((mask, f) ∷ fs) = f ∷ plain_all fs

  -- `GetPayload` takes the mask off once: a second call returns the same bytes, and the code stays.
  pub get_payload_twice :
      (f : RawFrame)
      → (get_payload ws (get_payload ws f).1 ≡ ((get_payload ws f).0, (get_payload ws f).1))
        × (get_op_code (get_payload ws f).1 ≡ get_op_code f)
  unfolding get_payload get_op_code
  get_payload_twice f = (refl, refl)

  seen-masked :
      ((b mask : Bytes) → ws.cipher (ws.cipher b mask) mask ≡ b)
      → (l : List (Bytes × Frame)) → seen_all (masked_all l) ≡ plain_all l
  unfolding get_payload get_op_code
  seen-masked undone [] = refl
  seen-masked undone ((mask, f) ∷ fs) = rw (undone f.payload mask, seen-masked undone fs) refl

  -- A cipher that undoes itself, as an exclusive or does: the reading loop of a channel hands the
  -- listener what the peer sent under any masks, the non-empty payloads of all frames but pings up
  -- to the first frame that closes.
  pub read_loop-masked :
      ((b mask : Bytes) → ws.cipher (ws.cipher b mask) mask ≡ b)
      → (l : List (Bytes × Frame)) (ch : Channel)
      → (read_loop (seen_all (masked_all l)) ch).1.delivered
        ≡ ch.delivered ++ messages (plain_all l)
  read_loop-masked undone l ch = rw (seen-masked undone l) (read_loop-messages (plain_all l) ch)
