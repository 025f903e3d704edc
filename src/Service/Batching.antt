-- ===== src/Service/Batching.antt =====
-- dispatchToDevices of service.go: who is sent to, in which batches, and what the counts add up to.
use mathlib.Core.Path.{subst}
use mathlib.Core.List.{flatten, reverse, reverse-cons, append-nil, append_assoc}
use grnoti.Prelude.{
  ◌+◌, ◌≡◌, refl, sym, ap, ◌∙◌, inl, inr, Bool, true, false, not, ◌||◌, List, [], ◌∷◌, ◌++◌, Option,
  none, arith, leb, is_empty, length, length-append, All, if◌then◌else◌, Bool-cases,
}
use grnoti.Types.{Error, Device, Message, DispatchResult, no_dispatch, total_count}
use grnoti.Calls.{send, History, Env}
use grnoti.BatchSplitter.{deduplicate, split}
use grnoti.BatchSplitter.Split.{IsBatch, flatten-split, split_covers}
use grnoti.Service.{Service}
use grnoti.Service.Dispatch.{
  recipients, send_batches, send_to_recipients, dispatch_to_devices, merge_dispatch_result,
  last_error,
}

-- The device lists of the sends, the latest first.
abbrev pub sent_batches : History → List (List Device)
sent_batches [] = []
sent_batches (send ds _ ∷ h) = ds ∷ sent_batches h
sent_batches (_ ∷ h) = sent_batches h

-- The history holds these sends on top of another history's, in this order.
abbrev pub Sends : List (List Device) → History → History → Type 0
Sends batches h h' = sent_batches h' ≡ reverse batches ++ sent_batches h

send_batches-Sends :
    (batches : List (List Device)) (msg : Message) (d : DispatchResult) (last : Option Error)
    (env : Env) (h : History)
    → Sends batches h (send_batches batches msg d last env h).1
unfolding send_batches
send_batches-Sends [] msg d last env h = refl
send_batches-Sends (b ∷ bs) msg d last env h =
    let reply = env.send_reply h b msg in
    send_batches-Sends bs msg (merge_dispatch_result d reply.0) (last_error last reply.1) env
      (send b msg ∷ h)
    ∙ sym (rw reverse-cons (append_assoc (reverse bs) (b ∷ []) (sent_batches h)))

-- Batching is off, and the recipients go out in one send.
abbrev pub whole : Service → Bool
whole s = not s.config.enforce_batching || leb s.config.max_devices_per_batch 0

-- The batches that dispatchToDevices sends: none for no recipient, else one, or a split.
abbrev pub planned : Service → List Device → List (List Device)
planned s devices =
    if is_empty devices
    then []
    else if whole s
    then devices ∷ []
    else split devices s.config.max_devices_per_batch

send_to_recipients-Sends :
    (s : Service) (devices : List Device) (msg : Message) (env : Env) (h : History)
    → Sends (planned s devices) h (send_to_recipients s devices msg env h).1
unfolding send_to_recipients
send_to_recipients-Sends s [] msg env h = refl
send_to_recipients-Sends s (dev ∷ devs) msg env h = elim (Bool-cases (whole s)) [
  | inl one ↦ rw one refl
  | inr cut ↦ rw cut (
      send_batches-Sends (split (dev ∷ devs) s.config.max_devices_per_batch) msg no_dispatch none
        env h)
]

flatten-planned : (s : Service) (devices : List Device) → flatten (planned s devices) ≡ devices
unfolding flatten
flatten-planned s [] = refl
flatten-planned s (d ∷ ds) = elim (Bool-cases (whole s)) [
  | inl one ↦ rw one (append-nil (d ∷ ds))
  | inr cut ↦ rw cut (flatten-split (d ∷ ds) s.config.max_devices_per_batch)
]

All-IsBatch-planned :
    (s : Service) (devices : List Device)
    → whole s ≡ false
    → All (IsBatch s.config.max_devices_per_batch) (planned s devices)
All-IsBatch-planned s [] cut = tt
All-IsBatch-planned s (d ∷ ds) cut =
    rw cut (split_covers (d ∷ ds) s.config.max_devices_per_batch (ground arith) (omega arith)).1

-- The sends that dispatchToDevices makes are, in order, the planned batches. Joined, these are the
-- recipients, each once: the devices given, deduplicated if that is configured. With batching on,
-- no batch is empty or larger than the configured size.
pub dispatch_to_devices-Sends :
    (s : Service) (devices : List Device) (msg : Message) (env : Env) (h : History)
    → let batches = planned s (recipients s devices) in
      Sends batches h (dispatch_to_devices s devices msg env h).1
      × (flatten batches ≡ recipients s devices)
      × (whole s ≡ false → All (IsBatch s.config.max_devices_per_batch) batches)
unfolding dispatch_to_devices
dispatch_to_devices-Sends s devices msg env h = (
  send_to_recipients-Sends s (recipients s devices) msg env h,
  flatten-planned s (recipients s devices),
  All-IsBatch-planned s (recipients s devices),
)

-- No two devices with one FID.
abbrev pub IsDistinct : List Device → Type 0
IsDistinct ds = deduplicate ds ≡ ds

-- The dispatcher reports each device that it is given as a success or as a failure, where it is
-- given no FID twice. fcmDispatcher counts a FID once.
abbrev pub AccountsForAll : Env → Type 0
AccountsForAll env =
    (h : History) (ds : List Device) (m : Message)
    → IsDistinct ds
    → total_count (env.send_reply h ds m).0 ≡ length ds

length-flatten-cons :
    (b : List Device) (bs : List (List Device))
    → length (flatten (b ∷ bs)) ≡ length b + length (flatten bs)
unfolding flatten
length-flatten-cons b bs = length-append b (flatten bs)

send_batches_total :
    (batches : List (List Device)) (msg : Message) (d : DispatchResult) (last : Option Error)
    (env : Env) (h : History)
    → AccountsForAll env
    → All IsDistinct batches
    → total_count (send_batches batches msg d last env h).0.0
      ≡ total_count d + length (flatten batches)
unfolding send_batches merge_dispatch_result total_count flatten
send_batches_total [] msg d last env h all distinct = omega arith
send_batches_total (b ∷ bs) msg d last env h all distinct =
    let reply = env.send_reply h b msg in
    omega (
      arith,
      length-flatten-cons b bs,
      all h b msg distinct.0,
      send_batches_total bs msg (merge_dispatch_result d reply.0) (last_error last reply.1) env
          (send b msg ∷ h) all distinct.1,
    )

planned-whole :
    (s : Service) (dev : Device) (devs : List Device)
    → whole s ≡ true
    → planned s (dev ∷ devs) ≡ (dev ∷ devs) ∷ []
planned-whole s dev devs one = rw one refl

planned-split :
    (s : Service) (dev : Device) (devs : List Device)
    → whole s ≡ false
    → planned s (dev ∷ devs) ≡ split (dev ∷ devs) s.config.max_devices_per_batch
planned-split s dev devs cut = rw cut refl

send_to_recipients_total :
    (s : Service) (devices : List Device) (msg : Message) (env : Env) (h : History)
    → AccountsForAll env
    → All IsDistinct (planned s devices)
    → let o = (send_to_recipients s devices msg env h).0 in
      (total_count o.dispatch_result ≡ length devices) × (o.device_count ≡ length devices)
unfolding send_to_recipients total_count
send_to_recipients_total s [] msg env h all distinct = (refl, refl)
send_to_recipients_total s (dev ∷ devs) msg env h all distinct = elim (Bool-cases (whole s)) [
  | inl one ↦ rw one (
    all h (dev ∷ devs) msg (subst (All IsDistinct) (planned-whole s dev devs one) distinct).0,
    refl,
  )
  | inr cut ↦
      let batches = split (dev ∷ devs) s.config.max_devices_per_batch in
      rw cut (
        omega (
          arith,
          send_batches_total batches msg no_dispatch none env h all
              (subst (All IsDistinct) (planned-split s dev devs cut) distinct),
          ap length (flatten-split (dev ∷ devs) s.config.max_devices_per_batch),
        ),
        refl,
      )
]

-- If the dispatcher accounts for every device of a list with no FID twice, and no batch has a FID
-- twice, the merged result of dispatchToDevices accounts for every recipient: successes and
-- failures add up to the reported device count, which is the number of recipients, batched or not.
pub dispatch_to_devices_total :
    (s : Service) (devices : List Device) (msg : Message) (env : Env) (h : History)
    → AccountsForAll env
    → All IsDistinct (planned s (recipients s devices))
    → let o = (dispatch_to_devices s devices msg env h).0 in
      (total_count o.dispatch_result ≡ length (recipients s devices))
      × (o.device_count ≡ length (recipients s devices))
unfolding dispatch_to_devices
dispatch_to_devices_total s devices msg env h all distinct =
    send_to_recipients_total s (recipients s devices) msg env h all distinct
