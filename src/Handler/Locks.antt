-- ===== src/Handler/Locks.antt =====
-- lockCallback and unlockCallback of src/DataStreamHandler.cpp, which curl calls for the data that its
-- handles share. Of a mutex it is kept whether it is held; a lock of one that is held waits (`none`).
use libkolibre_xmlreader.Base.{ℕ, ◌≡◌, refl, Bool, true, false, Option, none, some}

-- curl_lock_data
pub data CurlLockData : Type 0 where
  share cookie dns ssl_session connect : CurlLockData
  unknown : ℕ → CurlLockData

-- Which of the mutexes are held.
pub record Mutexes : Type 0 where
  pub share_mutex : Bool
  pub cookie_mutex : Bool
  pub dns_mutex : Bool
  pub ssl_session_mutex : Bool
  pub connect_mutex : Bool

-- pthread_mutex_lock, with what is done behind it.
abbrev pub locked : Bool → Mutexes → Option Mutexes
locked true m = none
locked false m = some m

unfoldable pub lock_callback : CurlLockData → Mutexes → Option Mutexes
lock_callback share m = locked m.share_mutex (record m { share_mutex = true })
lock_callback cookie m = locked m.cookie_mutex (record m { cookie_mutex = true })
lock_callback dns m = locked m.dns_mutex (record m { dns_mutex = true })
lock_callback ssl_session m = locked m.ssl_session_mutex (record m { ssl_session_mutex = true })
lock_callback connect m = locked m.connect_mutex (record m { connect_mutex = true })
lock_callback (unknown n) m = some m

unfoldable pub unlock_callback : CurlLockData → Mutexes → Mutexes
unlock_callback share m = record m { share_mutex = false }
unlock_callback cookie m = record m { cookie_mutex = false }
unlock_callback dns m = record m { dns_mutex = false }
unlock_callback ssl_session m = record m { ssl_session_mutex = false }
unlock_callback connect m = record m { connect_mutex = false }
unlock_callback (unknown n) m = m

-- No mutex is held.
abbrev pub none_held : Mutexes
none_held = record {
  share_mutex = false;
  cookie_mutex = false;
  dns_mutex = false;
  ssl_session_mutex = false;
  connect_mutex = false;
}

-- A lock for any data can be had when none is held, and its release leaves none held.
pub unlock_callback-lock_callback :
    (d : CurlLockData)
    → (m : Mutexes) × (lock_callback d none_held ≡ some m) × (unlock_callback d m ≡ none_held)
unfolding lock_callback unlock_callback
unlock_callback-lock_callback share = (_, refl, refl)
unlock_callback-lock_callback cookie = (_, refl, refl)
unlock_callback-lock_callback dns = (_, refl, refl)
unlock_callback-lock_callback ssl_session = (_, refl, refl)
unlock_callback-lock_callback connect = (_, refl, refl)
unlock_callback-lock_callback (unknown n) = (_, refl, refl)
