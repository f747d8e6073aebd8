-- ===== src/Client/Ids/Fresh.antt =====
-- Lists of frames whose ids are distinct and at most the last id that was issued.
use integration_home_assista.Prelude.{
  ℕ, String, ◌+◌, ◌%◌, ◌^◌, ◌≤◌, ◌<◌, ◌≡◌, ◌≢◌, refl, Option, none, some, List, [], ◌∷◌, All, arith,
}
use integration_home_assista.Json.{Fields, get, as_u64}
use integration_home_assista.Client.Socket.{command}
use integration_home_assista.Platform.{Platform}
use integration_home_assista.Entity.States.{entry}
use integration_home_assista.Client.State.{
  HaClient, WsFrame, text_frame, ping_frame, pong_frame, close_frame,
}

module _ {p : Platform} where
  -- The id of the JSON message in a frame.
  abbrev pub frame_id : WsFrame p → Option ℕ
  frame_id (text_frame msg) = entry as_u64 "id" msg
  frame_id ping_frame = none
  frame_id (pong_frame bytes) = none
  frame_id (close_frame code) = none

  abbrev pub HasIdUpTo : ℕ → WsFrame p → Type 0
  HasIdUpTo n f = (k : ℕ) → frame_id f ≡ some k → k ≤ n

  abbrev pub HasOtherId : WsFrame p → WsFrame p → Type 0
  HasOtherId f g = (k : ℕ) → frame_id f ≡ some k → frame_id g ≢ some k

  -- No two of the frames have the same id.
  abbrev pub HasDistinctIds : List (WsFrame p) → Type 0
  HasDistinctIds [] = Unit
  HasDistinctIds (f ∷ fs) = All (HasOtherId f) fs × HasDistinctIds fs

  -- The ids are at most `n`, and distinct.
  pub data Fresh (n : ℕ) (fs : List (WsFrame p)) : Type 0 where
    fresh : All (HasIdUpTo n) fs → HasDistinctIds fs → Fresh n fs

  pub Fresh-distinct : {n : ℕ} {fs : List (WsFrame p)} → Fresh n fs → HasDistinctIds fs
  Fresh-distinct (fresh b d) = d

  All-raise :
      (n m : ℕ) (fs : List (WsFrame p)) → n ≤ m → All (HasIdUpTo n) fs → All (HasIdUpTo m) fs
  All-raise n m [] h b = tt
  All-raise n m (f ∷ fs) h b =
      (λ k e. let l : k ≤ n = b.0 k e in omega arith, All-raise n m fs h b.1)

  -- A frame whose id lies above the others' has another id.
  All-other :
      (n m : ℕ) (f : WsFrame p) (fs : List (WsFrame p))
      → n < m
      → frame_id f ≡ some m
      → All (HasIdUpTo n) fs
      → All (HasOtherId f) fs
  All-other n m f [] h e b = tt
  All-other n m f (g ∷ fs) h e b =
      (λ k q r. let l : k ≤ n = b.0 k r in ground arith, All-other n m f fs h e b.1)

  All-anonymous :
      (f : WsFrame p) (fs : List (WsFrame p)) → frame_id f ≡ none → All (HasOtherId f) fs
  All-anonymous f [] e = tt
  All-anonymous f (g ∷ fs) e = (λ k q r. cc, All-anonymous f fs e)

  pub Fresh-raise : (n m : ℕ) (fs : List (WsFrame p)) → n ≤ m → Fresh n fs → Fresh m fs
  Fresh-raise n m fs h (fresh b d) = fresh (All-raise n m fs h b) d

  pub Fresh-issue :
      (n m : ℕ) (f : WsFrame p) (fs : List (WsFrame p))
      → n < m
      → frame_id f ≡ some m
      → Fresh n fs
      → Fresh m (f ∷ fs)
  Fresh-issue n m f fs h e (fresh b d) =
      fresh (λ k q. ground arith, All-raise n m fs (omega arith) b) (All-other n m f fs h e b, d)

  pub Fresh-anonymous :
      (n : ℕ) (f : WsFrame p) (fs : List (WsFrame p))
      → frame_id f ≡ none
      → Fresh n fs
      → Fresh n (f ∷ fs)
  Fresh-anonymous n f fs e (fresh b d) = fresh (λ k q. cc, b) (All-anonymous f fs e, d)

  -- A reserved id that is written after the next one.
  pub Fresh-reserved :
      (n m l : ℕ) (f g : WsFrame p) (fs : List (WsFrame p))
      → n < m
      → m < l
      → frame_id f ≡ some m
      → frame_id g ≡ some l
      → Fresh n fs
      → Fresh l (f ∷ g ∷ fs)
  Fresh-reserved n m l f g fs h j e q (fresh b d) =
      fresh (λ k r. ground arith, (λ k r. ground arith, All-raise n l fs (omega arith) b))
        (
          (λ k r s. ground arith, All-other n m f fs h e b),
          (All-other n l g fs (omega arith) q b, d),
        )

  -- A command with the next id.
  pub Fresh-command :
      (n : ℕ) (type : String) (fields : Fields p.F64) (fs : List (WsFrame p))
      → n + 1 < 2 ^ 32
      → Fresh n fs
      → Fresh ((n + 1) % 2 ^ 32) (text_frame (command ((n + 1) % 2 ^ 32) type fields) ∷ fs)
  unfolding get
  Fresh-command n type fields fs few h = Fresh-issue n _ _ fs (omega arith) refl h

  -- An id that is issued and not written.
  pub Fresh-skip :
      (n : ℕ) (fs : List (WsFrame p)) → n + 1 < 2 ^ 32 → Fresh n fs → Fresh ((n + 1) % 2 ^ 32) fs
  Fresh-skip n fs few h = Fresh-raise n _ fs (omega arith) h

  -- What lies between two last ids with what was written: at most `k` new ids, each used at most once.
  pub data Issued (k n : ℕ) (fs : List (WsFrame p)) (m : ℕ) (gs : List (WsFrame p)) : Type 0 where
    issued : (n + k < 2 ^ 32 → Fresh n fs → Fresh m gs × (m ≤ n + k)) → Issued k n fs m gs

  abbrev pub Issues : ℕ → HaClient p → HaClient p → Type 0
  Issues k c d = Issued k c.ws_id c.written d.ws_id d.written

  module _ {n m : ℕ} {fs gs : List (WsFrame p)} where
    pub Issued-Fresh :
        {k : ℕ} → Issued k n fs m gs → n + k < 2 ^ 32 → Fresh n fs → Fresh m gs × (m ≤ n + k)
    Issued-Fresh (issued h) = h

    pub Issued-then :
        {j k l : ℕ} {hs : List (WsFrame p)}
        → Issued j n fs m gs
        → Issued k m gs l hs
        → Issued (j + k) n fs l hs
    Issued-then (issued h) (issued g) = issued λ few f.
        let a = h (omega arith) f in
        let b = g (let u = a.1 in omega arith) a.0 in
        (b.0, let u = a.1 in let v = b.1 in omega arith)

    pub Issued-more : {j : ℕ} (k : ℕ) → j ≤ k → Issued j n fs m gs → Issued k n fs m gs
    Issued-more k le (issued h) =
        issued λ few f. let a = h (omega arith) f in (a.0, let u = a.1 in omega arith)

  -- Nothing is issued.
  pub Issued-none : (k n : ℕ) (fs : List (WsFrame p)) → Issued k n fs n fs
  Issued-none k n fs = issued λ few f. (f, omega arith)
