-- ===== src/Buffer/Tests.antt =====
-- A list of buffers, and the theorems at concrete inputs.
use nju_networking_lab.Base.{◌≡◌, refl, arith, [], ◌∷◌, some, drop, ◌>>=◌}
use nju_networking_lab.Buffer.{BufferList, of_string, str, list_remove_prefix, list_size}
use nju_networking_lab.Buffer.Views.{of_list, remove_prefix, size, as_iovecs}
use nju_networking_lab.Buffer.Views.Agrees.{gathered, views_agree}
use nju_networking_lab.Buffer.Contents.{bytes, bytes-list_remove_prefix}

abbrev two_buffers : BufferList
two_buffers = of_string (1 ∷ 2 ∷ []) ∷ of_string (3 ∷ 4 ∷ 5 ∷ []) ∷ []

two_buffers-bytes : bytes two_buffers ≡ 1 ∷ 2 ∷ 3 ∷ 4 ∷ 5 ∷ []
unfolding bytes str
two_buffers-bytes = refl

bytes-list_remove_prefix_example :
    (bs : BufferList) × (list_remove_prefix 3 two_buffers ≡ some bs)
    × (bytes bs ≡ drop 3 (bytes two_buffers))
unfolding bytes str
bytes-list_remove_prefix_example = bytes-list_remove_prefix 3 two_buffers (omega arith)

views_agree_example :
    (gathered (as_iovecs (of_list two_buffers)) ≡ bytes two_buffers)
    × (size (of_list two_buffers) ≡ list_size two_buffers)
    × (remove_prefix 3 (of_list two_buffers)
        ≡ (list_remove_prefix 3 two_buffers >>= λ bs. some (of_list bs)))
views_agree_example = views_agree 3 two_buffers
