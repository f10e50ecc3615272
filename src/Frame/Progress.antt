-- ===== src/Frame/Progress.antt =====
-- tcp/connection.go: every frame that is read takes bytes from the stream.
use kupool.Common.{leb→le, length, drop, Bytes, ℕ, zero, suc, ◌+◌, ◌≤◌, ◌≡◌, refl, [], ◌∷◌, arith}
use kupool.Io.{Result, ok, err, Source, Reads, ◌>>=◌, pure, read_full}
use kupool.Wire.{read_uint8, read_uint32, read_bytes}
use kupool.Frame.{read_frame}

-- A reader that takes `k` bytes or more whenever it gives a value.
abbrev pub Takes : {A : Type 0} → ℕ → Reads A → Type 0
Takes {A} k m = (r r' : Source) (a : A) → m r ≡ ok (a, r') → length r'.bytes + k ≤ length r.bytes

length-drop : (n : ℕ) (xs : Bytes) → n ≤ length xs → length (drop n xs) + n ≡ length xs
length-drop zero xs h = omega arith
length-drop (suc n) [] h = absurd (omega arith)
length-drop (suc n) (x ∷ xs) h = omega (arith, length-drop n xs (omega arith))

pure-Takes : {A : Type 0} (a : A) → Takes 0 (pure a)
pure-Takes a r r' b h = ground arith

read_full-Takes : (n : ℕ) → Takes n (read_full n)
unfolding read_full
read_full-Takes n r r' b h = ground (arith, leb→le n (length r.bytes), length-drop n r.bytes)

bind-ok :
    {A B : Type 0} (m : Reads A) (f : A → Reads B) (r r' : Source) (b : B)
    → (m >>= f) r ≡ ok (b, r')
    → (x : A × Source) × (m r ≡ ok x) × (f x.0 x.1 ≡ ok (b, r'))
bind-ok m f r r' b h = go (m r) refl
  where
    go : (y : Result _) → m r ≡ y → (x : _ × Source) × (m r ≡ ok x) × (f x.0 x.1 ≡ ok (b, r'))
    go (ok x) e = (x, e, rw e at h)
    go (err e') e = absurd (ground (arith, h, e))

bind-Takes :
    {A B : Type 0} (k l : ℕ) (m : Reads A) (f : A → Reads B)
    → Takes k m
    → ((a : A) → Takes l (f a))
    → Takes (k + l) (m >>= f)
bind-Takes k l m f hm hf r r' b h =
    let (x, e, e') = bind-ok m f r r' b h in
    let p = hm r x.1 x.0 e in let q = hf x.0 x.1 r' b e' in omega arith

pub read_frame-Takes : Takes 5 read_frame
unfolding read_frame read_uint8 read_uint32 read_bytes
read_frame-Takes =
    bind-Takes 1 4 read_uint8 _
      (bind-Takes 1 0 (read_full 1) _ (read_full-Takes 1) (λ b. pure-Takes _))
      (λ op. bind-Takes 4 0 read_bytes _ read_bytes-Takes (λ p. pure-Takes _))
  where
    read_bytes-Takes : Takes 4 read_bytes
    read_bytes-Takes =
        bind-Takes 4 0 read_uint32 _
          (bind-Takes 4 0 (read_full 4) _ (read_full-Takes 4) (λ b. pure-Takes _))
          (λ n r r' b h.
            let t =
              bind-Takes n 0 (read_full n) (λ buf. pure buf) (read_full-Takes n) (λ c. pure-Takes c)
                r r' b h in
            omega arith)
