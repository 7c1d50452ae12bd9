-- ===== src/Files/Tests.antt =====
-- A write in three parts with an interruption.
use native_pipe.Base.{◌≡◌, List, [], ◌∷◌, ◌++◌, arith}
use native_pipe.Files.{
  WriteAnswer, wrote, write_interrupted, write_done, write_error, write_full, got, read_interrupted,
  read_full,
}
use native_pipe.Files.Whole.{
  IsPartOf, write_full-IsPartOf, write_full-done, FillsTo, read_full-FillsTo,
}

abbrev in_parts : List WriteAnswer
in_parts = wrote 1 ∷ write_interrupted ∷ wrote 2 ∷ wrote 1 ∷ []

write_full-done_example :
    write_full in_parts [] (1 ∷ 2 ∷ 3 ∷ []) ≡ write_done ([] ++ (1 ∷ 2 ∷ 3 ∷ []))
write_full-done_example =
    write_full-done in_parts [] (1 ∷ 2 ∷ 3 ∷ []) (tt, (tt, (tt, (tt, tt)))) (omega arith)

write_full-IsPartOf_example :
    IsPartOf ([] ++ (1 ∷ 2 ∷ 3 ∷ [])) (write_full (wrote 2 ∷ write_error ∷ []) [] (1 ∷ 2 ∷ 3 ∷ []))
write_full-IsPartOf_example = write_full-IsPartOf (wrote 2 ∷ write_error ∷ []) [] (1 ∷ 2 ∷ 3 ∷ [])

read_full-FillsTo_example :
    FillsTo 3 (read_full (got (1 ∷ 2 ∷ []) ∷ read_interrupted ∷ got (3 ∷ []) ∷ []) 3 [])
read_full-FillsTo_example =
    read_full-FillsTo (got (1 ∷ 2 ∷ []) ∷ read_interrupted ∷ got (3 ∷ []) ∷ []) 3 [] (omega arith)
