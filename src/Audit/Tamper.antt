-- ===== src/Audit/Tamper.antt =====
-- audit/logger.py: that the written log verifies, and which changes of a log `verify_chain` finds.
use pico_dome.Base.{
  ℕ, ◌+◌, ◌≤◌, ◌<◌, String, Option, none, some, false, List, [], ◌∷◌, ◌++◌, length, All, Memᴰ, ◌≡◌,
  ◌⊎◌, refl, inl, inr, arith, sym, ◌∙◌,
}
use pico_dome.Base.Dict.{Dict}
use pico_dome.Base.Result.{get_or}
use pico_dome.Audit.Event.{AuditEventType, EventData}
use pico_dome.Audit.Logger.{
  AuditLogger, Format, is_blank, read_last_hash, new_logger, record_event, verify_from,
  verify_chain,
}
use pico_dome.Audit.Chain.{
  IsFormat, IsChained, lines_of, end_hash, verify_from-cons, verify_from_of_cons,
  read_last_hash_lem, record_event-IsChained,
}

-- The arguments of a call of `record`, with the id and the time that it takes.
pub record Request : Type 0 where
  pub event_id : String
  pub timestamp : String
  pub event_type : AuditEventType
  pub actor : String
  pub detail : String
  pub target : String
  pub metadata : Dict String

module _ {Line : Type 0} (f : Format Line) where
  unfoldable pub record_all : List Request → AuditLogger Line → AuditLogger Line
  unfolding record_event
  record_all [] a = a
  record_all (r ∷ rs) a =
      record_all rs
        (record_event f r.event_id r.timestamp r.event_type r.actor r.detail r.target r.metadata
          a).0

  record_all-IsChained :
      IsFormat f
      → (rs : List Request) (a : AuditLogger Line) → IsChained f a
      → IsChained f (record_all rs a)
  unfolding record_all
  record_all-IsChained laws [] a h = h
  record_all-IsChained laws (r ∷ rs) a h = record_all-IsChained laws rs _ (
      record_event-IsChained f laws r.event_id r.timestamp r.event_type r.actor r.detail r.target
        r.metadata a h)

  -- A logger is started on a log that verifies, or on none, with no rotated file. Whatever it records, and
  -- however often the log is rotated, the log verifies, and so does every rotated file once it is
  -- decompressed.
  pub record_all_verified :
      IsFormat f
      → (max_bytes rotate_count : ℕ) (log : Option (List Line)) (rs : List Request)
      → verify_chain f (some (lines_of f log)) ≡ []
      → let a = record_all rs (new_logger f max_bytes rotate_count log []) in
        (verify_chain f (some (lines_of f a.log)) ≡ [])
        × All (λ l. verify_chain f (some (f.gunzip l)) ≡ []) a.rotated
  unfolding new_logger
  record_all_verified laws max_bytes rotate_count log rs h =
      let (current, _, old) =
        record_all-IsChained laws rs (new_logger f max_bytes rotate_count log [])
          (h, start log h, tt) in
      (current, old)
    where
      start :
          (o : Option (List Line))
          → verify_chain f (some (lines_of f o)) ≡ []
          → read_last_hash f o ≡ end_hash f "" (lines_of f o)
      start none k = unfold read_last_hash in refl
      start (some lines) k = read_last_hash_lem f lines k

  -- A line as it is written: without white space around it, and not empty.
  abbrev pub IsWritten : Line → Type 0
  IsWritten line = (f.strip line ≡ line) × (is_blank f line ≡ false)

  abbrev pub last_of : Line → List Line → Line
  last_of line [] = line
  last_of line (next ∷ lines) = last_of next lines

  -- SHA-256 does not collide on a line of the one log and a line of the other.
  abbrev pub IsCollisionFree : List Line → List Line → Type 0
  IsCollisionFree xs ys = (x y : Line) → Memᴰ x xs → Memᴰ y ys → f.sha256 x ≡ f.sha256 y → x ≡ y

  rest_verified :
      (n : ℕ) (hash : String) (x : Line) (xs : List Line)
      → IsWritten x
      → verify_from f n hash (x ∷ xs) ≡ []
      → verify_from f (n + 1) (f.sha256 x) xs ≡ []
  rest_verified n hash x xs w h = elim (verify_from-cons f n hash x xs h) [
    | inl (b, _) ↦ absurd (cc)
    | inr (b, d, e, c, k) ↦ rw w.0 at k
  ]

  -- From the second line on, a line that verifies names the hash.
  linked :
      (n : ℕ) (hash : String) (x : Line) (xs : List Line)
      → 1 < n
      → IsWritten x
      → verify_from f n hash (x ∷ xs) ≡ []
      → (d : EventData) × (f.loads x ≡ some d) × (get_or d.prev_hash "" ≡ hash)
  linked n hash x xs l w h = elim (verify_from-cons f n hash x xs h) [
    | inl (b, _) ↦ absurd (cc)
    | inr (b, d, e, inl c, k) ↦ (d, rw w.0 at e, c)
    | inr (b, d, e, inr c, k) ↦ absurd (omega (arith, c, l))
  ]

  same_hash :
      {hash hash' : String} {x : Line}
      → (d : EventData) × (f.loads x ≡ some d) × (get_or d.prev_hash "" ≡ hash)
      → (d : EventData) × (f.loads x ≡ some d) × (get_or d.prev_hash "" ≡ hash')
      → hash ≡ hash'
  same_hash (d, e, a) (d', e', b) = let same : d ≡ d' = cc in cc

  chain_determined :
      (xs ys : List Line) (x y : Line) (n : ℕ) (hash hash' : String)
      → 0 < n
      → All IsWritten (x ∷ xs)
      → All IsWritten (y ∷ ys)
      → IsCollisionFree (x ∷ xs) (y ∷ ys)
      → length xs ≡ length ys
      → verify_from f n hash (x ∷ xs) ≡ []
      → verify_from f n hash' (y ∷ ys) ≡ []
      → last_of x xs ≡ last_of y ys
      → ◌≡◌ {A = List Line} (x ∷ xs) (y ∷ ys)
  chain_determined [] [] x y n hash hash' l wx wy free size hx hy last = rw last refl
  chain_determined [] (y' ∷ ys) x y n hash hash' l wx wy free size hx hy last =
      absurd (omega (arith, size))
  chain_determined (x' ∷ xs) [] x y n hash hash' l wx wy free size hx hy last =
      absurd (omega (arith, size))
  chain_determined (x' ∷ xs) (y' ∷ ys) x y n hash hash' l wx wy free size hx hy last =
      let hx' = rest_verified n hash x (x' ∷ xs) wx.0 hx in
      let hy' = rest_verified n hash' y (y' ∷ ys) wy.0 hy in
      let later = λ (a b : Line) (m : Memᴰ a (x' ∷ xs)) (k : Memᴰ b (y' ∷ ys)).
        free a b (Memᴰ.tail m) (Memᴰ.tail k) in
      let same : ◌≡◌ {A = List Line} (x' ∷ xs) (y' ∷ ys) =
        chain_determined xs ys x' y' (n + 1) (f.sha256 x) (f.sha256 y) (omega arith) wx.1 wy.1 later
          (omega (arith, size)) hx' hy' last in
      let first : x' ≡ y' = cc in
      let of_x = linked (n + 1) (f.sha256 x) x' xs (omega (arith, l)) wx.1.0 hx' in
      let of_y = linked (n + 1) (f.sha256 y) y' ys (omega (arith, l)) wy.1.0 hy' in
      let hashes : f.sha256 x ≡ f.sha256 y = same_hash {x = x'} of_x (rw (← first) at of_y) in
      let one : x ≡ y = free x y (Memᴰ.head refl) (Memᴰ.head refl) hashes in rw (one, same) refl

  -- Two logs of equally many written lines that both verify are the same, if they end in the same line
  -- and SHA-256 does not collide on their lines: no change before the last line escapes `verify_chain`.
  pub verify_chain_determined :
      (xs ys : List Line) (x y : Line)
      → All IsWritten (x ∷ xs)
      → All IsWritten (y ∷ ys)
      → IsCollisionFree (x ∷ xs) (y ∷ ys)
      → length xs ≡ length ys
      → last_of x xs ≡ last_of y ys
      → verify_chain f (some (x ∷ xs)) ≡ []
      → verify_chain f (some (y ∷ ys)) ≡ []
      → ◌≡◌ {A = List Line} (x ∷ xs) (y ∷ ys)
  unfolding verify_chain
  verify_chain_determined xs ys x y wx wy free size last hx hy =
      chain_determined xs ys x y 1 "" "" (omega arith) wx wy free size hx hy last

  last_replaced :
      (xs : List Line) (x y : Line) (n : ℕ) (hash : String) (d e : EventData)
      → IsWritten x
      → IsWritten y
      → f.loads x ≡ some d
      → f.loads y ≡ some e
      → get_or d.prev_hash "" ≡ get_or e.prev_hash ""
      → verify_from f n hash (xs ++ (x ∷ [])) ≡ []
      → verify_from f n hash (xs ++ (y ∷ [])) ≡ []
  last_replaced [] x y n hash d e wx wy lx ly same h = elim (verify_from-cons f n hash x [] h) [
    | inl (b, _) ↦ absurd (cc)
    | inr (b, d', e', c, k) ↦
        let read : d' ≡ d = cc in
        verify_from_of_cons f n hash y []
          (inr (wy.1, e, rw wy.0 ly, named d' read c, unfold verify_from in refl))
  ]
    where
      named :
          (d' : EventData)
          → d' ≡ d
          → (get_or d'.prev_hash "" ≡ hash) ⊎ (n ≤ 1)
          → (get_or e.prev_hash "" ≡ hash) ⊎ (n ≤ 1)
      named d' read (inl c) = inl (sym same ∙ (rw read at c))
      named d' read (inr c) = inr c
  last_replaced (z ∷ xs) x y n hash d e wx wy lx ly same h =
      elim (verify_from-cons f n hash z (xs ++ (x ∷ [])) h) [
        | inl (b, k) ↦
            verify_from_of_cons f n hash z (xs ++ (y ∷ []))
              (inl (b, last_replaced xs x y (n + 1) hash d e wx wy lx ly same k))
        | inr (b, d', e', c, k) ↦ verify_from_of_cons f n hash z (xs ++ (y ∷ [])) (
            inr (
              b,
              d',
              e',
              c,
              last_replaced xs x y (n + 1) (f.sha256 (f.strip z)) d e wx wy lx ly same k,
            ))
      ]

  -- The last line of a log that verifies can be replaced by any line that names the same hash, and the
  -- log still verifies.
  pub verify_chain_replaced :
      (xs : List Line) (x y : Line) (d e : EventData)
      → IsWritten x
      → IsWritten y
      → f.loads x ≡ some d
      → f.loads y ≡ some e
      → get_or d.prev_hash "" ≡ get_or e.prev_hash ""
      → verify_chain f (some (xs ++ (x ∷ []))) ≡ []
      → verify_chain f (some (xs ++ (y ∷ []))) ≡ []
  unfolding verify_chain
  verify_chain_replaced xs x y d e wx wy lx ly same h =
      last_replaced xs x y 1 "" d e wx wy lx ly same h
