-- ===== src/Api/Reading.antt =====
-- nifat32.c: NIFAT32_read_content2buffer. Sizes are not negative, and a cluster has less than 2^31
-- bytes; the loop has its rounds as fuel.
pub mod Ends
use ni_fat.Base.{
  ℕ, zero, suc, ◌+◌, ◌-◌, ◌==◌, ltb, if◌then◌else◌, Bool, true, false, ◌||◌, List, ◌++◌, take, drop,
  Option, none, some,
}
use ni_fat.State.{FatData, State, Driver}
use ni_fat.Strings.{ℤ}
use ni_fat.Errors.{register_error}
use ni_fat.Fat.{read_fat}
use ni_fat.Cluster.{readoff_cluster}
use ni_fat.Content.Access.{get_content_mode, get_content_data_ca}
use ni_fat.Api.Defs.{Api, Host, M, put_state, is_read_mode, is_over, locked, note}

abbrev pub no_read_access_error : ℕ
no_read_access_error = 15

abbrev pub readoff_cluster_error : ℕ
readoff_cluster_error = 17

-- `readeble` and `writable`
unfoldable pub portion : FatData → ℕ → ℕ → ℕ
portion fi offset size =
    if ltb (fi.cluster_size - offset) size then fi.cluster_size - offset else size

-- What a round of a loop does before it goes on along the chain: whether it went well, the bytes that
-- it transferred, and the offset after it.
pub record Moved : Type 0 where
  pub fine : Bool
  pub count : ℕ
  pub offset : ℕ

abbrev pub skipped : FatData → ℕ → Moved
skipped fi offset = record { fine = true; count = 0; offset = offset - fi.cluster_size }

abbrev pub moved : ℕ → Moved
moved n = record { fine = true; count = n; offset = 0 }

abbrev pub broken : Moved
broken = record { fine = false; count = 0; offset = 0 }

-- what a loop returns: its total, or `none` for an error, and the buffer
abbrev pub Total : Type 0
Total = Option ℕ × List ℕ

abbrev pub behind_part : List ℕ → ℕ → Total → Total
behind_part filled n r = (r.0, take n filled ++ r.1)

module _ {S : Type 0} (d : Driver S) (fi : FatData) where
  unfoldable pub read_part : ℕ → (Bool × List ℕ) × State S → (Moved × List ℕ) × State S
  read_part n ((true, filled), s) = ((moved n, filled), s)
  read_part n ((false, filled), s) =
      ((broken, filled), (register_error d fi readoff_cluster_error s).1)

  -- the body of the loop, up to the step along the chain
  unfoldable pub read_step : ℕ → ℕ → List ℕ → ℕ → State S → (Moved × List ℕ) × State S
  read_step ca offset buffer size s = elim (ltb fi.cluster_size offset) [
    | true ↦ ((skipped fi offset, buffer), s)
    | false ↦
        let n = portion fi offset size in read_part n (readoff_cluster d fi ca offset buffer n s)
  ]

  -- The loop. `buffer` is what is left of the buffer, from `total_readden` on.
  unfoldable pub read_loop : ℕ → ℕ → ℕ → List ℕ → ℕ → ℕ → State S → Option (Total × State S)
  read_loop zero ca offset buffer size total s = none
  read_loop (suc fuel) ca offset buffer size total s =
      let ((m, filled), s1) = read_step ca offset buffer size s in
      let (next, s2) = read_fat d fi ca s1 in
      elim m.fine [
        | false ↦ some ((none, filled), s1)
        | true ↦ elim (is_over next || size - m.count == 0) [
          | true ↦ some ((some (total + m.count), filled), s2)
          | false ↦
              elim (read_loop fuel next m.offset (drop m.count filled) (size - m.count)
                (total + m.count) s2) [
                  | none ↦ none
                  | some (r, s3) ↦ some (behind_part filled m.count r, s3)
                ]
        ]
      ]

-- what is returned: 0 after an error
abbrev pub answer : Total → ℕ × List ℕ
answer (none, buffer) = (0, buffer)
answer (some total, buffer) = (total, buffer)

module _ {S T : Type 0} (h : Host S T) (fi : FatData) where
  unfoldable pub read_content : ℤ → ℕ → List ℕ → ℕ → M S T (ℕ × List ℕ)
  read_content ci offset buffer size w =
      let s = w.logged.state in
      elim (is_read_mode (get_content_mode ci w.table)) [
        | false ↦ some (put_state w ((0, buffer), note h fi no_read_access_error s))
        | true ↦
            elim (read_loop h.driver fi h.fuel (get_content_data_ca ci w.table) offset buffer size 0
              s) [ none ↦ none | some (r, s') ↦ some (put_state w (answer r, s')) ]
      ]

  -- `NIFAT32_read_content2buffer`, with the buffer after it
  unfoldable pub read_content2buffer :
      ℤ → ℕ → List ℕ → ℕ → Api S T → Option ((ℕ × List ℕ) × Api S T)
  read_content2buffer ci offset buffer size =
      locked (0, buffer) (read_content ci offset buffer size)
