-- ===== src/Cbor/BufferTests.antt =====
-- The theorems on buffers and differences at concrete inputs.
use uvm.Base.{◌≡◌, refl, arith, [], ◌∷◌, none, some}
use uvm.Base.Int.{pos}
use uvm.Cbor.Value.{int, CborObject, scalar, array, map, nil, cons, end, entry, string, null}
use uvm.Cbor.Builder.{key_lt}
use uvm.Cbor.Output.{Output, put_bytes, IsRoomy, put_bytes-IsRoomy}
use uvm.Cbor.Diff.{diff}
use uvm.Cbor.Diff.Same.{diff_self}

abbrev small_buffer : Output
small_buffer = record { written = b'a' ∷ []; capacity = 2 }

put_bytes-IsRoomy_example :
    (o' : Output) × (put_bytes (b'b' ∷ b'c' ∷ []) small_buffer ≡ some o')
    × (o'.written ≡ b'a' ∷ b'b' ∷ b'c' ∷ [])
    × IsRoomy o'
put_bytes-IsRoomy_example =
    put_bytes-IsRoomy (b'b' ∷ b'c' ∷ []) small_buffer (omega arith, omega arith) (omega arith)

abbrev price_list : CborObject
price_list = map (
    entry (b'a' ∷ []) (array (cons (scalar (int (pos 3))) (cons (scalar null) nil)))
      (entry (b'b' ∷ []) (scalar (string [])) end))

diff_self_example : diff (λ d. b'1' ∷ []) price_list price_list ≡ none
unfolding key_lt
diff_self_example =
    diff_self (λ d. b'1' ∷ []) price_list (((refl, tt), (tt, tt)), ((tt, (tt, tt)), (tt, tt)))
