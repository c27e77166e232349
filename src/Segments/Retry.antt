-- ===== src/Segments/Retry.antt =====
-- How a request of segments.go is tried again: at most three times, and only where that can help.
use origamy_go_sdk.Base.{
  ℕ, zero, suc, ◌+◌, ◌≤◌, ◌<◌, ◌≡◌, refl, ap, sym, subst, ◌∙◌, ◌⊎◌, inl, inr, true, false, Option,
  none, some, Option-cases, Bool-cases, List, [], ◌∷◌, replicate, leb, arith,
}
use origamy_go_sdk.Base.Int.{ℤ, pos}
use origamy_go_sdk.Data.{Duration, Error, joined, Result, ok, err}
use origamy_go_sdk.Segments.{SegmentMembersRequest, SegmentMembersResult, SegmentsClient}
use origamy_go_sdk.Segments.Post.{
  Response, Codec, Network, Reading, done, failed, requests, waits, Posted, max_attempts,
  retry_after_header, read_segment_response, url, request, finish, prepend, delay, wait_for,
  after_reading, after_do, post_from, post,
}
use origamy_go_sdk.Segments.Verdict.{
  requested, Verdict, again, of_reading, of_failure, of_answer, verdict, Reaches, Decides, settled,
  exhausted, stopped,
}

module _ (codec : Codec) (net : Network) (c : SegmentsClient) (segment_id : ℤ) where
  abbrev settles : ℕ → Verdict
  settles = verdict codec net c segment_id

  abbrev told : ℕ → Result Response → Verdict
  told = of_answer codec net c segment_id

  abbrev IsReached : ℕ → Type 0
  IsReached = Reaches codec net c segment_id

  abbrev Ends : ℕ → Result SegmentMembersResult → Type 0
  Ends = Decides codec net c segment_id

  -- The attempts from `i` on, whose request has been sent.
  record Course (payload : List ℕ) (i : ℕ) (es : Option Posted) : Type 0 where
    posted : Posted
    returned : es ≡ some posted
    last : ℕ
    further : ℕ
    at : last ≡ i + further
    bound : last < max_attempts
    reaches : IsReached last
    decides : Ends last posted.answer
    sent : requested posted.effects ≡ replicate further (request codec net c segment_id payload)

  module _ (payload : List ℕ) where
    abbrev sends : Option Posted → Option Posted
    sends rest =
        prepend codec net c segment_id (requests (request codec net c segment_id payload)) rest

    finished :
        (i : ℕ) (a : Result SegmentMembersResult)
        → i < max_attempts
        → IsReached i
        → Ends i a
        → Course payload i (finish codec net c segment_id a)
    finished i a h r d = record {
      posted = record { effects = []; answer = a };
      returned = refl;
      last = i;
      further = 0;
      at = omega arith;
      bound = h;
      reaches = r;
      decides = d;
      sent = refl;
    }

    next-IsReached :
        (i : ℕ) {e : Error}
        → IsReached i
        → settles i ≡ again e
        → net.interrupted i ≡ none
        → IsReached (i + 1)
    next-IsReached i {e} r v w j h = elim (le_cases j i (omega arith)) [
      | inl k ↦ r j k
      | inr k ↦
          subst (λ n. ((e : Error) × (settles n ≡ again e)) × (net.interrupted n ≡ none)) (sym k)
            ((e, v), w)
    ]
      where
        le_cases : (j i : ℕ) → j ≤ i → (j < i) ⊎ (j ≡ i)
        le_cases j i h = omega arith

    woken-Course :
        (i : ℕ) (e : Error) (wait : Duration) (rest : Option Posted)
        → i + 1 < max_attempts
        → IsReached i
        → settles i ≡ again e
        → (IsReached (i + 1) → Course payload (i + 1) rest)
        → Course payload i (wait_for codec net c segment_id e wait i (sends rest))
    unfolding wait_for
    woken-Course i e wait rest h r v k = elim (Option-cases (net.interrupted i)) [
      | inl w ↦
          let t = k (next-IsReached i r v w) in
          rw (w, t.returned)
            (record {
              posted = record {
                effects =
                    waits (delay codec net c segment_id wait i)
                    ∷ requests (request codec net c segment_id payload)
                    ∷ t.posted.effects;
                answer = t.posted.answer;
              };
              returned = refl;
              last = t.last;
              further = suc t.further;
              at = omega (arith, t.at);
              bound = t.bound;
              reaches = t.reaches;
              decides = t.decides;
              sent = ap (λ l. request codec net c segment_id payload ∷ l) t.sent;
            })
      | inr w ↦ rw w.1 (record {
        posted = record {
          effects = waits (delay codec net c segment_id wait i) ∷ [];
          answer = err (joined e w.0);
        };
        returned = refl;
        last = i;
        further = 0;
        at = omega arith;
        bound = omega arith;
        reaches = r;
        decides = stopped v h w.1;
        sent = refl;
      })
    ]

    exhausted_at :
        (i : ℕ) {e : Error}
        → i < max_attempts
        → leb max_attempts (i + 1) ≡ true
        → settles i ≡ again e
        → Ends i (err e)
    exhausted_at i h b v = exhausted v (ground arith)

    reading-Course :
        (i : ℕ) (res : Response) (rest : Option Posted)
        → i < max_attempts
        → IsReached i
        → (rd : Reading) → settles i ≡ of_reading rd
        → (i + 1 < max_attempts → IsReached (i + 1) → Course payload (i + 1) rest)
        → Course payload i (after_reading codec net c segment_id res i (sends rest) rd)
    unfolding after_reading
    reading-Course i res rest h r (done result) v k = finished i (ok result) h r (settled v)
    reading-Course i res rest h r (failed false e) v k = finished i (err e) h r (settled v)
    reading-Course i res rest h r (failed true e) v k =
        elim (Bool-cases (leb max_attempts (i + 1))) [
          | inl b ↦ rw b (finished i (err e) h r (exhausted_at i h b v))
          | inr b ↦
              let l : i + 1 < max_attempts = ground arith in
              rw b (woken-Course i e (retry_after_header res.retry_after) rest l r v (k l))
        ]

    failure-Course :
        (i : ℕ) (e : Error) (rest : Option Posted)
        → i < max_attempts
        → IsReached i
        → (ctx : Option Error) → net.context_error i ≡ ctx
        → settles i ≡ of_failure e ctx
        → (i + 1 < max_attempts → IsReached (i + 1) → Course payload (i + 1) rest)
        → Course payload i (after_do codec net c segment_id i (sends rest) (err e))
    unfolding after_do
    failure-Course i e rest h r (some x) q v k = rw q (finished i (err e) h r (settled v))
    failure-Course i e rest h r none q v k = elim (Bool-cases (leb max_attempts (i + 1))) [
      | inl b ↦ rw (q, b) (finished i (err e) h r (exhausted_at i h b v))
      | inr b ↦
          let l : i + 1 < max_attempts = ground arith in
          rw (q, b) (woken-Course i e (pos 0) rest l r v (k l))
    ]

    do-Course :
        (i : ℕ) (rest : Option Posted)
        → i < max_attempts
        → IsReached i
        → (o : Result Response) → net.answer i ≡ o
        → (i + 1 < max_attempts → IsReached (i + 1) → Course payload (i + 1) rest)
        → Course payload i (after_do codec net c segment_id i (sends rest) o)
    unfolding after_do
    do-Course i rest h r (ok res) a k =
        reading-Course i res rest h r (read_segment_response codec res) (ap (told i) a) k
    do-Course i rest h r (err e) a k =
        failure-Course i e rest h r (net.context_error i) refl (ap (told i) a) k

    abbrev behind : ℕ → ℕ → Option Posted
    behind f i =
        after_do codec net c segment_id i (post_from codec net c segment_id f payload (i + 1))
          (net.answer i)

    -- With a URL that makes a request, the loop sends it and goes on.
    post_from-sends :
        (f i : ℕ)
        → net.create (url codec net c segment_id) ≡ none
        → post_from codec net c segment_id (suc f) payload i ≡ sends (behind f i)
    unfolding post_from
    post_from-sends f i n = rw n refl

    behind-Course :
        (f i : ℕ)
        → net.create (url codec net c segment_id) ≡ none
        → i + suc f ≡ max_attempts
        → IsReached i
        → Course payload i (behind f i)
    unfolding post_from
    behind-Course zero i n h r =
        do-Course i none (omega (arith, h)) r (net.answer i) refl (λ l. ground arith)
    behind-Course (suc f) i n h r = rw (post_from-sends f (i + 1) n) (
        do-Course i (behind f (i + 1)) (omega (arith, h)) r (net.answer i) refl
          (λ l q. behind-Course f (i + 1) n (omega (arith, h)) q))

  -- A request whose body is marshalled and whose URL can be asked for returns after at most three
  -- attempts, each with the same request. The last attempt is the first that is final (an answer that
  -- asking again cannot better, or a context that has ended), or the third, or one whose wait the
  -- context ends; the answer of the call is that of this attempt.
  pub post_attempts :
      (body : SegmentMembersRequest) {payload : List ℕ}
      → codec.marshal body ≡ ok payload
      → net.create (url codec net c segment_id) ≡ none
      → (p : Posted) × (post codec net c segment_id body ≡ some p)
        × (last : ℕ) × (last < max_attempts)
        × Reaches codec net c segment_id last
        × Decides codec net c segment_id last p.answer
        × (requested p.effects ≡ replicate (suc last) (request codec net c segment_id payload))
  unfolding post
  post_attempts body {payload} m n =
      let k = behind-Course payload 2 0 n (omega arith) (λ i l. ground arith) in
      let q : k.further ≡ k.last = omega (arith, k.at) in
      (
        record {
          effects = requests (request codec net c segment_id payload) ∷ k.posted.effects;
          answer = k.posted.answer;
        },
        rw (m, post_from-sends payload 2 0 n, k.returned) refl,
        k.last,
        k.bound,
        k.reaches,
        k.decides,
        ap (λ l. request codec net c segment_id payload ∷ l)
            (k.sent ∙ ap (λ n. replicate n (request codec net c segment_id payload)) q),
      )

  -- `post` returns in every case: three attempts of fuel are enough.
  pub post_returns :
      (body : SegmentMembersRequest) → (p : Posted) × (post codec net c segment_id body ≡ some p)
  unfolding post post_from
  post_returns body = by_payload (codec.marshal body) refl
    where
      by_url :
          (payload : List ℕ) (o : Option Error)
          → codec.marshal body ≡ ok payload
          → net.create (url codec net c segment_id) ≡ o
          → (p : Posted) × (post codec net c segment_id body ≡ some p)
      by_url payload none m n = let p = post_attempts body m n in (p.0, p.1)
      by_url payload (some e) m n = (record { effects = []; answer = err e }, rw (m, n) refl)

      by_payload :
          (m : Result (List ℕ))
          → codec.marshal body ≡ m
          → (p : Posted) × (post codec net c segment_id body ≡ some p)
      by_payload (err e) m = (record { effects = []; answer = err e }, rw m refl)
      by_payload (ok payload) m = by_url payload (net.create (url codec net c segment_id)) m refl
