-- ===== src/Tests/Web.antt =====
-- The search service at concrete inputs.
use Prim.Native.String.{[]}
use udhyam_msme_extractor.Prelude.{
  String, ◌≡◌, refl, ◌<◌, ◌+◌, true, false, none, some, List, [], ◌∷◌, map, ℕ, ◌*◌, arith,
  if◌then◌else◌, All,
}
use udhyam_msme_extractor.Prelude.Text.{starts_with}
use udhyam_msme_extractor.Prelude.Numerals.{parse_int}
use udhyam_msme_extractor.Exec.{Exec, ok, err, pure}
use udhyam_msme_extractor.Exec.Triple.{Post}
use udhyam_msme_extractor.Web.Values.{
  DateTime, null, str, int, Driver, Service, SqlRow, WebError, queue_empty, CacheKey, CacheKey-Key,
  same_key, word, Answer, values, lookup_cache,
}
use udhyam_msme_extractor.Web.Cache.{put, fresh, get_or_set}
use udhyam_msme_extractor.Web.Cache.Fresh.{
  Use, unused, Served, hit, computes, start, next, Reach, Reach-Served,
}
use udhyam_msme_extractor.Web.Cache.Reuse.{IsPlace, get_or_set-reuse}
use udhyam_msme_extractor.Web.Pool.{open_slot, lazy_slots, run_query}
use udhyam_msme_extractor.Web.Pool.Slots as Slots
use udhyam_msme_extractor.Web.Pool.Slots.{
  Threads, IsCounted, Reach-IsCounted, repeat_query, run_query-drained, takes, opens,
}
use udhyam_msme_extractor.Web.Dates.{next_schedule_date, next_periods, parse_period}
use udhyam_msme_extractor.Web.Dates.Schedule.{
  IsDate, IsMonth, IsNextOf, next_schedule_date-IsNextOf, Follows, next_periods-Follows,
}
use udhyam_msme_extractor.Web.Filters.{
  Filters, where_sql, filter_params, count_sql, search_sql, filters_valid, any_filter,
}
use udhyam_msme_extractor.Web.Filters.Bound.{where_sql-Bound, AreBound, keys}
use udhyam_msme_extractor.Web.Paging.{page_size_allowed}
use udhyam_msme_extractor.Web.Paging.Covers.{IsOnPage, pages-HasPage}
use udhyam_msme_extractor.Web.Search.{search, search_valid, SearchResponse, Enterprise}
use udhyam_msme_extractor.Web.Search.Answers.{
  search-answers, IsCount, AreEnterprises, CountsNumbers,
}
use udhyam_msme_extractor.Web.Pool.Reachable.{IsReachable, IsAnswered, HasSlot}
use udhyam_msme_extractor.Web.Search.Outcome.{Served as ServedPage, Failed, search-Served}

-- a database that counts 45 enterprises and has one to show; its state is the time
abbrev answered : String → List SqlRow
answered sql =
    if starts_with sql "SELECT COUNT"
    then (int 45 ∷ []) ∷ []
    else (str "k1" ∷ str "Acme" ∷ null ∷ str "GOA" ∷ null ∷ null ∷ null ∷ []) ∷ []

abbrev reachable : Driver ℕ (Unit {0})
reachable = record {
  connect = λ db. (ok tt, db);
  is_closed = λ conn db. false;
  answers = λ conn db. (true, db);
  close = λ conn db. db;
  execute = λ conn sql params db. (ok (answered sql), db + 1);
  time = λ db. db;
  text_of = λ v. "";
  int_of_text = λ s. none;
}

abbrev unreachable : Driver ℕ (Unit {0})
unreachable = record reachable { connect = λ db. (err "timeout", db) }

abbrev service : Service ℕ (Unit {0})
service = record { db = 100; slots = none ∷ none ∷ []; lookups = []; counts = [] }

abbrev acme : Filters
acme = record { name = some "acme"; state = some "GOA"; district = none; nic_code = none }

abbrev other : Filters
other = record {
  name = some "%(limit)s' OR 1=1";
  state = some "x";
  district = none;
  nic_code = some "";
}

search-Served_example :
    Post
      (λ r _. ServedPage reachable acme 9 20 service r)
      (Failed reachable acme 9 20 service)
      (search reachable acme 9 20 service)
search-Served_example = search-Served reachable acme 9 20 service

where_sql-Bound_example :
    (where_sql acme ≡ where_sql other) × AreBound (where_sql acme) (keys (filter_params acme))
where_sql-Bound_example = where_sql-Bound acme other refl refl refl refl

twenty : page_size_allowed 20 ≡ true
unfolding page_size_allowed
twenty = refl

thirty : 30 < 45
thirty = omega arith

pages-HasPage_example :
    (page : ℕ) × IsOnPage 45 20 30 page × ((q : ℕ) → IsOnPage 45 20 30 q → q ≡ page)
pages-HasPage_example = pages-HasPage 45 20 30 twenty thirty

-- a cached count, found by another thread
abbrev key : CacheKey
key = word "states" ∷ []

abbrev computed_once : Use CacheKey ℕ
computed_once = record {
  store = put key 7 (10 + 5) [];
  computed = (key, 7, 10) ∷ [];
  served = (key, 7, 10) ∷ [];
}

abbrev used_again : Use CacheKey ℕ
used_again = record computed_once { served = (key, 7, 12) ∷ computed_once.served }

found : fresh key 12 computed_once.store ≡ some 7
unfolding fresh put CacheKey-Key same_key
found = refl

used_again-Reach : Reach 5 used_again
used_again-Reach = next (next start (computes unused key 7 10)) (hit computed_once key 7 12 found)

Reach-Served_example : All (Served 5 used_again.computed) used_again.served
Reach-Served_example = Reach-Served 5 used_again used_again-Reach

abbrev no_names : Exec (Service ℕ (Unit {0})) WebError Answer
no_names = pure (values [])

abbrev later : Service ℕ (Unit {0})
later = record service {
  db = 200;
  lookups = (get_or_set (lookup_cache reachable) key no_names service).1.lookups;
}

lookup_cache-IsPlace : IsPlace (lookup_cache reachable)
lookup_cache-IsPlace store s = refl

missed : fresh key 100 service.lookups ≡ none
unfolding fresh
missed = refl

soon : 200 < 100 + 6 * 60 * 60
soon = omega arith

get_or_set-reuse_example :
    get_or_set (lookup_cache reachable) key (λ s. (err queue_empty, s)) later
    ≡ (ok (values []), later)
get_or_set-reuse_example =
    get_or_set-reuse (lookup_cache reachable) key no_names (λ s. (err queue_empty, s)) (values [])
      service service later lookup_cache-IsPlace missed refl refl soon

-- one of two slots in use, another being opened
abbrev borrowed_once : Threads ℕ (Unit {0})
borrowed_once = record {
  service = record service { slots = [] };
  opening = none ∷ [];
  borrowed = tt ∷ [];
  failures = 0;
}

two_slots : service.slots ≡ lazy_slots 2
unfolding lazy_slots
two_slots = refl

opened :
    open_slot reachable none (record service { slots = [] })
    ≡ (ok tt, record service { slots = [] })
unfolding open_slot
opened = refl

abbrev idle : Threads ℕ (Unit {0})
idle = record { service = service; opening = []; borrowed = []; failures = 0 }

abbrev taken_once : Threads ℕ (Unit {0})
taken_once = record idle { service = record service { slots = none ∷ [] }; opening = none ∷ [] }

borrowed_once-Reach : Slots.Reach reachable 2 borrowed_once
borrowed_once-Reach =
    Slots.next
      (Slots.next (Slots.next (Slots.start service two_slots) (takes idle none (none ∷ []) refl))
        (takes taken_once none [] refl))
      (opens (record service { slots = [] }) [] none (none ∷ []) [] 0 tt
        (record service { slots = [] }) opened)

Reach-IsCounted_example : IsCounted reachable 2 borrowed_once
Reach-IsCounted_example = Reach-IsCounted reachable 2 borrowed_once borrowed_once-Reach

run_query-drained_example :
    run_query reachable "SELECT 1" [] (repeat_query unreachable "SELECT 1" [] 2 service)
    ≡ (err queue_empty, repeat_query unreachable "SELECT 1" [] 2 service)
run_query-drained_example =
    run_query-drained unreachable reachable (λ db. ("timeout", refl)) "SELECT 1" [] 2 service
      two_slots

abbrev late_december : DateTime
late_december = record {
  year = 2026;
  month = 12;
  day = 21;
  hour = 3;
  minute = 0;
  second = 0;
  microsecond = 0;
}

december_valid : IsDate late_december
december_valid = (omega arith, omega arith, omega arith, omega arith)

next_schedule_date-IsNextOf_example : IsNextOf late_december (next_schedule_date late_december)
next_schedule_date-IsNextOf_example = next_schedule_date-IsNextOf late_december december_valid

november : parse_period "2024-11" ≡ some (2024, 11)
unfolding parse_period parse_int
november = refl

november_valid : IsMonth (2024, 11)
november_valid = (omega arith, omega arith)

next_periods-Follows_example :
    (texts : List String) × (periods : List (ℕ × ℕ)) × (next_periods "2024-11" 3 ≡ some texts)
    × (map parse_period texts ≡ map some periods)
    × Follows (2024, 11) 3 periods
next_periods-Follows_example = next_periods-Follows "2024-11" 3 2024 11 november november_valid

abbrev enterprise : Enterprise
enterprise = record {
  enterprise_key = "k1";
  enterprise_name = "Acme";
  communication_address = none;
  state_name = some "GOA";
  district_name = none;
  pincode = none;
  country = none;
  msme = none;
  registration_date = none;
}

always_reachable : IsReachable reachable
always_reachable db = (tt, refl)

counts_acme : IsAnswered reachable (count_sql (where_sql acme)) IsCount
unfolding count_sql where_sql starts_with
counts_acme conn params db = ((int 45 ∷ []) ∷ [], (45, refl), refl)

shows_acme : IsAnswered reachable (search_sql (where_sql acme)) (AreEnterprises reachable)
unfolding search_sql where_sql starts_with
shows_acme conn params db =
    (answered "", (enterprise ∷ [], ((refl, refl, refl, refl, refl, refl, refl), tt)), refl)

slot_free : HasSlot reachable service
slot_free = (none, none ∷ [], refl)

nothing_counted : CountsNumbers reachable acme service
unfolding fresh
nothing_counted now v e = cc

acme_valid : search_valid acme 9 20 ≡ true
unfolding search_valid filters_valid
acme_valid = refl

acme_filtered : any_filter acme ≡ true
unfolding any_filter
acme_filtered = refl

search-answers_example :
    (r : SearchResponse) × (s' : Service ℕ (Unit {0})) × (search reachable acme 9 20 service
      ≡ (ok r, s'))
search-answers_example =
    search-answers reachable acme 9 20 service always_reachable counts_acme shows_acme slot_free
      nothing_counted acme_valid acme_filtered twenty
