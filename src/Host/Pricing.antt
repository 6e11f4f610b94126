-- ===== src/Host/Pricing.antt =====
-- The amount due of a channel: `compute_amount_due` and `record_payment`.
use cashu_spilman_channels.Prelude.{
  ℕ, ◌+◌, ◌*◌, ◌^◌, ◌≤◌, ◌<◌, String, Option, none, some, List, [], ◌∷◌, ◌≡◌, refl, ◌∙◌, ap, arith,
  All, unwrap_or, get, empty, total-get, from_entries, string_eq, str_eq_iff, get-empty, get-insert,
}
use cashu_spilman_channels.Json.{Json, and_then, ok_of, str_field}
use cashu_spilman_channels.Amounts.{u64, div_ceil}
use cashu_spilman_channels.Amounts.Ceiling.{div_ceil_least}
use cashu_spilman_channels.Storage.Records.{PaymentProof, UsageMap, opened}
use cashu_spilman_channels.Storage.{
  MemoryStorage, StorageError, unless_empty, read_usage, get_state, should_update, get_usage,
  add_increments,
}
use cashu_spilman_channels.Storage
use cashu_spilman_channels.Storage.Balance.{paid, Updated, update_balance-Updated}
use cashu_spilman_channels.Storage.Usage.{used, add_increments-total}
use cashu_spilman_channels.Host.{
  ConfigurableHost, UnitPricingConfig, saturate, add_prices, channel_unit, context_usage,
  compute_amount_due, record_payment, due_for, incremented, pricing_scale, or_logged,
}

-- What the counter of a variable is charged for.
abbrev pub charged : UsageMap → UsageMap → String → ℕ
charged accumulated pending variable =
    unwrap_or (get accumulated variable) 0 + unwrap_or (get pending variable) 0

-- The linear combination, without bounds.
unfoldable pub raw_total : List (String × ℕ) → UsageMap → UsageMap → ℕ
raw_total [] accumulated pending = 0
raw_total ((var_name, price) ∷ rest) accumulated pending =
    charged accumulated pending var_name * price + raw_total rest accumulated pending

add_prices-raw_total :
    (prices : List (String × ℕ)) (accumulated pending : UsageMap) (t : ℕ)
    → All (λ p. charged accumulated pending p.0 < 2 ^ 64) prices
    → t < 2 ^ 64
    → add_prices prices accumulated pending t ≡ saturate (t + raw_total prices accumulated pending)
unfolding add_prices raw_total
add_prices-raw_total [] accumulated pending t small h = omega arith
add_prices-raw_total ((var_name, price) ∷ rest) accumulated pending t small h =
    let c = charged accumulated pending var_name in
    let exact : u64 c ≡ c = omega (arith, small.0) in
    let r = raw_total rest accumulated pending in
    add_prices-raw_total rest accumulated pending (saturate (t + saturate (u64 c * price))) small.1
      (omega arith)
    ∙ (rw exact (omega (arith)))

-- The usage of a channel as `compute_amount_due` reads it: an empty map is read as none.
unless_empty-get :
    (l : List (String × ℕ)) (variable : String)
    → unwrap_or (get (unwrap_or (unless_empty l (record { entries = l })) empty) variable) 0
      ≡ unwrap_or (get (record { entries = l }) variable) 0
unfolding empty
unless_empty-get [] variable = refl
unless_empty-get (entry ∷ entries) variable = refl

read_usage-get :
    (o : Option UsageMap) (variable : String)
    → unwrap_or (get (unwrap_or (read_usage o) empty) variable) 0
      ≡ unwrap_or (get (unwrap_or o empty) variable) 0
read_usage-get none variable = refl
read_usage-get (some usage) variable = unless_empty-get usage.entries variable

get_usage-used :
    (id variable : String) (s : MemoryStorage)
    → unwrap_or (get (unwrap_or (get_usage id s) empty) variable) 0 ≡ used s id variable
unfolding get_usage used
get_usage-used id variable s = read_usage-get (get s.usage id) variable

-- Only the counters matter.
add_prices-charged :
    (prices : List (String × ℕ)) (a p b q : UsageMap) (t : ℕ)
    → ((v : String) → u64 (charged a p v) ≡ u64 (charged b q v))
    → add_prices prices a p t ≡ add_prices prices b q t
unfolding add_prices
add_prices-charged [] a p b q t h = refl
add_prices-charged ((v, price) ∷ rest) a p b q t h =
    add_prices-charged rest a p b q (saturate (t + saturate (u64 (charged a p v) * price))) h
    ∙ ap (λ c. add_prices rest b q (saturate (t + saturate (c * price)))) (h v)

-- The pending usage of a context.
abbrev pending_of : Json → ConfigurableHost → Option String → UsageMap
pending_of json host context = unwrap_or (and_then context (context_usage json host)) empty

due_for-charged :
    (host : ConfigurableHost) (o : Option UnitPricingConfig) (a p b q : UsageMap)
    → ((v : String) → u64 (charged a p v) ≡ u64 (charged b q v))
    → due_for host o a p ≡ due_for host o b q
unfolding due_for
due_for-charged host none a p b q h = refl
due_for-charged host (some cfg) a p b q h =
    ap (λ n. div_ceil n (pricing_scale host)) (add_prices-charged cfg.variables.entries a p b q 0 h)

channel_unit-funding :
    (json : Json) (host : ConfigurableHost) (id : String) (s t : MemoryStorage)
    → get t.funding id ≡ get s.funding id
    → channel_unit json host id t ≡ channel_unit json host id s
unfolding channel_unit
channel_unit-funding json host id s t f =
    ap
      (λ o. and_then o (λ funding.
        and_then (ok_of (json.from_str funding.params_json))
          (λ params. str_field json params "unit")))
      f

-- Two stores whose channel has the same funding, and contexts, with the same sums of stored and pending
-- usage have the same amount due.
compute_amount_due-charged :
    (json : Json) (host : ConfigurableHost) (id : String) (s t : MemoryStorage)
    (c d : Option String)
    → get t.funding id ≡ get s.funding id
    → ((v : String)
        → u64 (used t id v + unwrap_or (get (pending_of json host d) v) 0)
          ≡ u64 (used s id v + unwrap_or (get (pending_of json host c) v) 0))
    → compute_amount_due json host id d t ≡ compute_amount_due json host id c s
unfolding compute_amount_due
compute_amount_due-charged json host id s t c d f h =
    ap
      (λ u.
        due_for host (get host.config.pricing (unwrap_or u "")) (unwrap_or (get_usage id t) empty)
          (pending_of json host d))
      (channel_unit-funding json host id s t f)
    ∙ due_for-charged host (get host.config.pricing (unwrap_or (channel_unit json host id s) ""))
        (unwrap_or (get_usage id t) empty) (pending_of json host d)
        (unwrap_or (get_usage id s) empty) (pending_of json host c)
        (λ v. rw (get_usage-used id v t, get_usage-used id v s) (h v))

incremented-used :
    (id variable : String) (o : Option (List (String × ℕ))) (s : MemoryStorage)
    → u64 (used (incremented id (and_then o (λ l. some (from_entries l))) s) id variable)
      ≡ u64 (
          used s id variable
          + unwrap_or (get (unwrap_or (and_then o (λ l. some (from_entries l))) empty) variable) 0)
unfolding Storage.increment_usage used
incremented-used id variable none s = ap u64 (rw (get-empty {V = ℕ} variable) (omega arith))
incremented-used id variable (some l) s =
    let before = unwrap_or (get s.usage id) empty in
    let m = from_entries l in
    rw (get-insert s.usage id id (add_increments m.entries before), (str_eq_iff id id).1 refl)
      (add_increments-total variable m.entries before
        ∙ ap (λ n. u64 (unwrap_or (get before variable) 0 + n)) (total-get l variable))

used-same : (id v : String) (s t : MemoryStorage) → t.usage ≡ s.usage → used t id v ≡ used s id v
unfolding used
used-same id v s t e = ap (λ m. unwrap_or (get (unwrap_or (get m id) empty) v) 0) e

pub incremented-kept :
    (id : String) (o : Option UsageMap) (s : MemoryStorage)
    → ((incremented id o s).funding ≡ s.funding) × ((incremented id o s).balance ≡ s.balance)
unfolding Storage.increment_usage
incremented-kept id none s = (refl, refl)
incremented-kept id (some u) s = (refl, refl)

-- On an open channel `record_payment` is the balance update and then the usage.
pub record_payment-opened :
    (json : Json) (host : ConfigurableHost) (id context : String) (p : PaymentProof)
    (s : MemoryStorage) (u : Updated id p s)
    → record_payment json host id p context s
      ≡ incremented id (context_usage json host context) u.store
unfolding record_payment
record_payment-opened json host id context p s u =
    ap (λ r. or_logged s r (λ t. incremented id (context_usage json host context) t)) u.returns

-- The counters after it.
incremented-books :
    (json : Json) (host : ConfigurableHost) (id context v : String) (p : PaymentProof)
    (s : MemoryStorage) (u : Updated id p s)
    → u64 (
        used (incremented id (context_usage json host context) u.store) id v
        + unwrap_or (get (pending_of json host none) v) 0)
      ≡ u64 (used s id v + unwrap_or (get (pending_of json host (some context)) v) 0)
incremented-books json host id context v p s u =
    let t = incremented id (context_usage json host context) u.store in
    ap (λ n. u64 (used t id v + n)) (ap (λ o. unwrap_or o 0) (get-empty {V = ℕ} v))
    ∙ ap u64 (omega arith)
    ∙ incremented-used id v (json.usage_entries context) u.store
    ∙ ap (λ n. u64 (n + unwrap_or (get (pending_of json host (some context)) v) 0))
        (used-same id v s u.store u.usage)

-- Recording a payment on an open channel keeps the books: the amount due afterwards is the amount that
-- was due with the payment's context pending, whether or not the context can be read, and the stored
-- balance is at least the payment's and never less than before.
pub record_payment_lem :
    (json : Json) (host : ConfigurableHost) (id context : String) (payment : PaymentProof)
    (s : MemoryStorage)
    → get_state s id ≡ some opened
    → (compute_amount_due json host id none (record_payment json host id payment context s)
        ≡ compute_amount_due json host id (some context) s)
      × (payment.balance ≤ paid (get (record_payment json host id payment context s).balance id))
      × (paid (get s.balance id)
          ≤ paid (get (record_payment json host id payment context s).balance id))
record_payment_lem json host id context p s h =
    let u = update_balance-Updated id p s h in
    let t = incremented id (context_usage json host context) u.store in
    let (f, b) = incremented-kept id (context_usage json host context) u.store in
    rw (record_payment-opened json host id context p s u) (
      (
        compute_amount_due-charged json host id s t (some context) none
            (ap (λ m. get m id) (f ∙ u.funding))
            (λ v. incremented-books json host id context v p s u),
        rw b u.covers,
        rw b u.keeps,
      ))

-- The combination that a channel is charged for, and that its counters do not wrap.
abbrev pub raw_of :
    Json → ConfigurableHost → String → Option String → MemoryStorage → UnitPricingConfig → ℕ
raw_of json host id context s cfg =
    raw_total cfg.variables.entries (unwrap_or (get_usage id s) empty)
      (pending_of json host context)

abbrev pub NoWrap :
    Json → ConfigurableHost → String → Option String → MemoryStorage → UnitPricingConfig → Type 0
NoWrap json host id context s cfg =
    All
      (λ p. charged (unwrap_or (get_usage id s) empty) (pending_of json host context) p.0 < 2 ^ 64)
      cfg.variables.entries

-- For a channel whose unit has a price, whose counters with the pending usage stay below 2^64 and whose
-- linear combination of usage and prices does too, the amount due is the least whole number whose
-- multiple by the pricing scale covers that combination.
pub compute_amount_due_lem :
    (json : Json) (host : ConfigurableHost) (id : String) (context : Option String)
    (s : MemoryStorage) (cfg : UnitPricingConfig)
    → get host.config.pricing (unwrap_or (channel_unit json host id s) "") ≡ some cfg
    → NoWrap json host id context s cfg
    → raw_of json host id context s cfg < 2 ^ 64
    → (raw_of json host id context s cfg
        ≤ compute_amount_due json host id context s * pricing_scale host)
      × (compute_amount_due json host id context s * pricing_scale host
          < raw_of json host id context s cfg + pricing_scale host)
unfolding compute_amount_due
compute_amount_due_lem json host id context s cfg priced small fits =
    let raw = raw_of json host id context s cfg in
    let sums : add_prices cfg.variables.entries (unwrap_or (get_usage id s) empty)
          (pending_of json host context) 0
        ≡ raw =
      add_prices-raw_total cfg.variables.entries (unwrap_or (get_usage id s) empty)
        (pending_of json host context) 0 small (omega arith)
      ∙ omega arith in
    rw priced (
      unfold due_for in
      rw sums (div_ceil_least raw (pricing_scale host) (unfold pricing_scale in omega arith)))
