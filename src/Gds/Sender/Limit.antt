-- ===== src/Gds/Sender/Limit.antt =====
-- `_payload_within_limit` of gds/app/dmz_collector_sender.py. The size of the encoded list of events is a
-- parameter.
use opcua_implementaion.Prelude.{
  append_nil, ℕ, zero, suc, ◌≤◌, ◌<◌, false, ◌||◌, List, [], ◌∷◌, ◌++◌, length, take, leb, ltb,
  if◌then◌else◌, ◌≡◌, ◌⊎◌, refl, sym, ap, ◌∙◌, arith, inl, inr, Bool-cases,
}

module _ {ℓ} {A : Type ℓ} (size : List A → ℕ) (limit : ℕ) where
  -- The loop: what it has in `trimmed`, and what it still reads.
  unfoldable pub trim : List A → List A → List A
  trim trimmed [] = trimmed
  trim trimmed (event ∷ events) =
      let rest = trim (trimmed ++ event ∷ []) events in
      if ltb limit (size (trimmed ++ event ∷ [])) then trimmed else rest

  -- `trimmed or events[:1]`
  abbrev pub or_first : List A → List A → List A
  or_first [] events = take 1 events
  or_first (x ∷ xs) events = x ∷ xs

  unfoldable pub payload_within_limit : List A → List A
  payload_within_limit events =
      if leb limit 0 || leb (size events) limit then events else or_first (trim [] events) events

  -- What `trim` adds is a beginning of what it reads: all of the beginnings up to it are within the
  -- limit, and the next one is not.
  pub record IsTrimmed (before events : List A) : Type ℓ where
    pub read : ℕ
    pub within_events : read ≤ length events
    pub result : trim before events ≡ before ++ take read events
    pub fits : (k : ℕ) → suc k ≤ read → size (before ++ take (suc k) events) ≤ limit
    pub stops : (read ≡ length events) ⊎ (limit < size (before ++ take (suc read) events))

  append_one : (xs ys : List A) (x : A) → (xs ++ x ∷ []) ++ ys ≡ xs ++ x ∷ ys
  append_one [] ys x = refl
  append_one (z ∷ xs) ys x = rw (append_one xs ys x) refl

  fits_cons :
      (before events : List A) (event : A) (rest : IsTrimmed (before ++ event ∷ []) events) (k : ℕ)
      → suc k ≤ suc rest.read
      → ltb limit (size (before ++ event ∷ [])) ≡ false
      → size (before ++ event ∷ take k events) ≤ limit
  fits_cons before events event rest zero h within = ground arith
  fits_cons before events event rest (suc k) h within =
      rw (sym (append_one before (take (suc k) events) event)) (rest.fits k (omega arith))

  stops_cons :
      (before events : List A) (event : A) (rest : IsTrimmed (before ++ event ∷ []) events)
      → (suc rest.read ≡ suc (length events))
        ⊎ (limit < size (before ++ event ∷ take (suc rest.read) events))
  stops_cons before events event rest = elim rest.stops [
    | inl all_read ↦ inl (ap suc all_read)
    | inr over ↦ inr (rw (sym (append_one before (take (suc rest.read) events) event)) over)
  ]

  pub trims : (before events : List A) → IsTrimmed before events
  unfolding trim
  trims before [] = record {
    read = 0;
    within_events = omega arith;
    result = sym (append_nil before);
    fits = λ k h. absurd (omega arith);
    stops = inl refl;
  }
  trims before (event ∷ events) = elim (Bool-cases (ltb limit (size (before ++ event ∷ [])))) [
    | inl over ↦ record {
      read = 0;
      within_events = omega arith;
      result = rw over (sym (append_nil before));
      fits = λ k h. absurd (omega arith);
      stops = inr (ground arith);
    }
    | inr within ↦
        (let rest = trims (before ++ event ∷ []) events in
          record {
            read = suc rest.read;
            within_events = omega (arith, rest.within_events);
            result = rw within (rest.result ∙ append_one before (take rest.read events) event);
            fits = λ k h. fits_cons before events event rest k h within;
            stops = stops_cons before events event rest;
          })
  ]

  take_all : (xs : List A) → take (length xs) xs ≡ xs
  take_all [] = refl
  take_all (x ∷ xs) = rw (take_all xs) refl

  -- What is sent of the events: its number, that it is a beginning that fits unless it is one event
  -- alone, and that nothing longer fits.
  pub record IsLongest (events : List A) : Type ℓ where
    pub sent : ℕ
    pub some_event : 1 ≤ sent
    pub no_more : sent ≤ length events
    pub result : payload_within_limit events ≡ take sent events
    pub fits_or_one : (size (take sent events) ≤ limit) ⊎ (sent ≡ 1)
    pub longest : (j : ℕ) → sent < j → j ≤ length events → limit < size (take j events)

  whole :
      (event : A) (events : List A)
      → size (event ∷ events) ≤ limit
      → payload_within_limit (event ∷ events) ≡ event ∷ events
      → IsLongest (event ∷ events)
  whole event events fit same = record {
    sent = suc (length events);
    some_event = omega arith;
    no_more = omega arith;
    result = rw (take_all events) same;
    fits_or_one = inl (rw (take_all events) fit);
    longest = λ j more within. absurd (omega arith);
  }

  beyond :
      (event : A) (events : List A)
      → ((k j : ℕ) → k ≤ j → size (take k (event ∷ events)) ≤ size (take j (event ∷ events)))
      → (cut : IsTrimmed [] (event ∷ events)) → (j : ℕ) → cut.read < j
      → j ≤ suc (length events)
      → limit < size (take j (event ∷ events))
  beyond event events grows cut j more within = elim cut.stops [
    | inl all_read ↦ absurd (omega (arith, all_read))
    | inr next ↦ omega (arith, grows (suc cut.read) j (omega arith), next)
  ]

  part :
      (event : A) (events : List A)
      → ((k j : ℕ) → k ≤ j → size (take k (event ∷ events)) ≤ size (take j (event ∷ events)))
      → limit < size (event ∷ events)
      → payload_within_limit (event ∷ events) ≡ or_first (trim [] (event ∷ events)) (event ∷ events)
      → (cut : IsTrimmed [] (event ∷ events)) → (n : ℕ) → cut.read ≡ n
      → IsLongest (event ∷ events)
  part event events grows over same cut zero none_read = record {
    sent = 1;
    some_event = omega arith;
    no_more = omega arith;
    result =
        same
        ∙ ap (λ (t : List A). or_first t (event ∷ events))
            (cut.result ∙ ap (λ k. take k (event ∷ events)) none_read);
    fits_or_one = inr refl;
    longest = λ j more within. beyond event events grows cut j (omega arith) within;
  }
  part event events grows over same cut (suc n) some_read = record {
    sent = suc n;
    some_event = omega arith;
    no_more = omega (arith, cut.within_events);
    result =
        same
        ∙ ap (λ (t : List A). or_first t (event ∷ events))
            (cut.result ∙ ap (λ k. take k (event ∷ events)) some_read);
    fits_or_one = inl (cut.fits n (omega arith));
    longest = λ j more within. beyond event events grows cut j (omega arith) within;
  }

  -- Where the encoded list grows with its events and there is a limit, what is sent of one event or more
  -- is the longest beginning that fits, or the first event alone where not even it fits.
  pub payload_within_limit-IsLongest :
      (event : A) (events : List A)
      → 0 < limit
      → ((k j : ℕ) → k ≤ j → size (take k (event ∷ events)) ≤ size (take j (event ∷ events)))
      → IsLongest (event ∷ events)
  unfolding payload_within_limit
  payload_within_limit-IsLongest event events limited grows =
      elim (Bool-cases (leb (size (event ∷ events)) limit)) [
        | inl fit ↦ whole event events (ground arith) (ground arith)
        | inr over ↦
            (let cut = trims [] (event ∷ events) in
              part event events grows (ground arith) (ground arith) cut cut.read refl)
      ]
