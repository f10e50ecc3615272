-- ===== src/Client/Run.antt =====
-- app/client/client.go, Run: what an input of the loop sends.
use kupool.Common.{
  if◌then◌else◌, Bool-cases, text_beq, Bytes, Time, ◌≡◌, refl, ◌⊎◌, inl, inr, Bool, true, false,
  Option, none, some, arith,
}
use mathlib.Core.Path.{subst}
use mathlib.Core.Option.{some-injective}
use kupool.Frame.{Frame}
use kupool.Protocol.{Codec, Request, method_job}
use kupool.Client.{
  Client, Turn, Input, done, read_error, received, second_tick, minute_tick, on_request,
  send_submit, on_job, on_frame, on_second, on_minute, step,
}

module _ (codec : Codec) (sha256 : Bytes → Bytes) where
  abbrev pub Kept : Client → Client → Type 0
  Kept c d = (d.next_id ≡ c.next_id) × (d.sent ≡ c.sent)

  -- A step sends nothing, or one submission of the client as the step has left it.
  abbrev pub Sends : Client → Client → Type 0
  Sends c d = Kept c d ⊎ ((e : Client) × (t : Turn) × Kept c e × (d ≡ send_submit codec sha256 t e))

  on_request-Sends :
      (r : Option Request) (t : Turn) (c : Client) → Sends c (on_request codec sha256 r t c)
  unfolding on_job
  on_request-Sends none t c = inl (refl, refl)
  on_request-Sends (some msg) t c = elim (Bool-cases (text_beq msg.method method_job)) [
    | inl e ↦ rw e (inr (_, t, (refl, refl), refl))
    | inr e ↦ rw e (inl (refl, refl))
  ]

  on_frame-Sends : (f : Frame) (t : Turn) (c : Client) → Sends c (on_frame codec sha256 f t c)
  unfolding on_frame
  on_frame-Sends f t c = ground (arith, on_request-Sends (codec.decode_request f.payload) t c)

  Sends-if : (b : Bool) (c d e : Client) → Sends c d → Sends c e → Sends c (if b then d else e)
  Sends-if true c d e h k = h
  Sends-if false c d e h k = k

  Sends-self : (c : Client) → Sends c c
  Sends-self c = inl (refl, refl)

  Sends-submit : (t : Turn) (c : Client) → Sends c (send_submit codec sha256 t c)
  Sends-submit t c = inr (c, t, (refl, refl), refl)

  on_second-Sends :
      (since : Time) (t : Turn) (c : Client) → Sends c (on_second codec sha256 since t c)
  unfolding on_second
  on_second-Sends since t c =
      Sends-if _ c c _ (Sends-self c) (Sends-if _ c c _ (Sends-self c) (Sends-submit t c))

  on_minute-Sends :
      (since : Time) (t : Turn) (c : Client) → Sends c (on_minute codec sha256 since t c)
  unfolding on_minute
  on_minute-Sends since t c =
      Sends-if _ c c _ (Sends-self c) (Sends-if _ c c _ (Sends-self c) (Sends-submit t c))

  pub step-Sends : (x : Input) (c d : Client) → step codec sha256 x c ≡ some d → Sends c d
  unfolding step
  step-Sends done c d e = absurd (ground (arith, e))
  step-Sends read_error c d e = absurd (ground (arith, e))
  step-Sends (received f t) c d e = subst (Sends c) (some-injective _ _ e) (on_frame-Sends f t c)
  step-Sends (second_tick since t) c d e =
      subst (Sends c) (some-injective _ _ e) (on_second-Sends since t c)
  step-Sends (minute_tick since t) c d e =
      subst (Sends c) (some-injective _ _ e) (on_minute-Sends since t c)
