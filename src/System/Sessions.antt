-- ===== src/System/Sessions.antt =====
-- app/server: the well-formed states of the coordinator, and the updates that keep them so.
use kupool.Common.{
  Text, text_beq_iff, nat_key, text_key, Map, lookup, insert, delete, lookup-insert, lookup-delete,
  stamp_key, ℕ, ◌≡◌, refl, Bool, true, Option, none, some, [], ◌∷◌, arith,
}
use kupool.State.{Session, JobRecord, Coordinator, SavedJob}
use kupool.Coordinator.{new_session, register_session, tell}
use kupool.Listener.{put_session}
use kupool.Acceptor.{restore_user}

-- Every session stands under its own channel, and no channel twice.
abbrev pub IsKeyed : Map Text Session → Type 0
IsKeyed [] = Unit
IsKeyed ((k, s) ∷ m) = (s.channel_id ≡ k) × (lookup k m ≡ none) × IsKeyed m

-- The current job is in the history, with its nonce.
abbrev pub IsCurrent : Coordinator → Type 0
IsCurrent c =
    (rec : JobRecord) × (lookup c.job_id c.history ≡ some rec) × (rec.nonce ≡ c.server_nonce)

pub record IsValid (c : Coordinator) : Type 0 where
  pub is_keyed : IsKeyed c.sessions
  pub is_current : IsCurrent c

-- The same of a server whose first round may be still to come.
abbrev pub IsFit : Bool → Coordinator → Type 0
IsFit begun c = IsKeyed c.sessions × (begun ≡ true → IsCurrent c)

lookup_nil : (k : Text) → lookup {V = Session} k [] ≡ none
unfolding lookup
lookup_nil k = refl

pub insert-IsKeyed :
    (k : Text) (s : Session) (m : Map Text Session)
    → s.channel_id ≡ k
    → IsKeyed m
    → IsKeyed (insert k s m)
unfolding insert
insert-IsKeyed k s [] e h = (e, lookup_nil k, tt)
insert-IsKeyed k s ((j, t) ∷ m) e h =
    ground
      (arith, text_beq_iff j k, text_beq_iff k j, insert-IsKeyed k s m e h.2, lookup-insert k j s m)

pub delete-IsKeyed : (k : Text) (m : Map Text Session) → IsKeyed m → IsKeyed (delete k m)
unfolding delete
delete-IsKeyed k [] h = tt
delete-IsKeyed k ((j, t) ∷ m) h = ground (arith, delete-IsKeyed k m, lookup-delete k j m)

lookup-tell_missing :
    (job : ℕ) (nonce k : Text) (m : Map Text Session)
    → lookup k m ≡ none
    → lookup k (tell job nonce m) ≡ none
unfolding lookup tell
lookup-tell_missing job nonce k [] h = refl
lookup-tell_missing job nonce k ((j, t) ∷ m) h = ground (arith, lookup-tell_missing job nonce k m)

pub tell-IsKeyed :
    (job : ℕ) (nonce : Text) (m : Map Text Session) → IsKeyed m → IsKeyed (tell job nonce m)
unfolding tell
tell-IsKeyed job nonce [] h = tt
tell-IsKeyed job nonce ((j, t) ∷ m) h =
    (h.0, lookup-tell_missing job nonce j m h.1, tell-IsKeyed job nonce m h.2)

-- A session that is found stands under its own channel.
pub lookup-IsKeyed :
    (k : Text) (m : Map Text Session) (s : Session)
    → IsKeyed m
    → lookup k m ≡ some s
    → s.channel_id ≡ k
unfolding lookup
lookup-IsKeyed k [] s h e = cc
lookup-IsKeyed k ((j, t) ∷ m) s h e = ground (arith, text_beq_iff j k, lookup-IsKeyed k m s)

pub put_session-IsFit :
    (begun : Bool) (k : Text) (s : Session) (c : Coordinator)
    → s.channel_id ≡ k
    → IsFit begun c
    → IsFit begun (put_session k s c)
unfolding put_session
put_session-IsFit begun k s c e v = (insert-IsKeyed k s c.sessions e v.0, v.1)

pub register_session-IsFit :
    (begun : Bool) (ch user : Text) (c : Coordinator)
    → IsFit begun c
    → IsFit begun (register_session ch user c)
unfolding register_session put_session
register_session-IsFit begun ch user c v = put_session-IsFit begun ch (new_session ch user) c refl v

pub restore_user-channel_id :
    (u : Option SavedJob) (s : Session) → (restore_user u s).channel_id ≡ s.channel_id
restore_user-channel_id none s = refl
restore_user-channel_id (some u) s = refl
