-- ===== src/Http/Read/Condition.antt =====
-- The condition of the loop of readBytes (src/HttpStream.cpp), on its numbers.
use libkolibre_xmlreader.Base.{
  ℕ, suc, ◌<◌, ◌≡◌, ◌⊎◌, inl, inr, Bool, true, false, not, ◌&&◌, ◌||◌, ltb, ◌==◌, [], Bytes, arith,
}
use libkolibre_xmlreader.Http.Stream.{HttpStream}
use libkolibre_xmlreader.Http.Transfer.{at_most}

-- The stream as a read starts.
abbrev pub begun : {Z : Type 0} → ℕ → HttpStream Z → HttpStream Z
begun n s = record s { bytes_read = 0; bytes_to_read = n; filled = [] }

pub stop_cases :
    (room read : ℕ) (b cached : Bool)
    → cached ≡ false
    → (ltb 0 room && (b || read == 0) && not cached) ≡ false
    → (room ≡ 0) ⊎ (0 < read)
stop_cases room read b cached e h = ground (arith, e, h)

pub go_cases :
    (room read : ℕ) (b cached : Bool)
    → (ltb 0 room && (b || read == 0) && not cached) ≡ true
    → 0 < room
go_cases room read b cached h = ground (arith, h)

pub still_running : (m : ℕ) → (suc m == 0) ≡ false
still_running m = ground arith

pub no_room : (room : ℕ) → ltb 0 (at_most 0 room) ≡ false
no_room room = ground arith

pub no_held : (held : Bytes) (room : ℕ) → (held ≡ []) ⊎ (room ≡ 0) → 0 < room → held ≡ []
no_held held room (inl e) h = e
no_held held room (inr e) h = absurd (omega arith)

pub room_for : (size n : ℕ) → 0 < size → 0 < n → ltb 0 (at_most size n) ≡ true
room_for size n h k = ground (arith, h, k)

pub condition_holds :
    (n read : ℕ) (cached : Bool)
    → 0 < n
    → cached ≡ false
    → (ltb 0 n && (true || read == 0) && not cached) ≡ true
condition_holds n read cached h e = ground (arith, h, e)

pub skipped :
    (n read : ℕ) (b cached : Bool)
    → cached ≡ true
    → (ltb 0 n && (b || read == 0) && not cached) ≡ false
skipped n read b cached e = ground (arith, e)
