-- ===== src/Descriptor/Tests.antt =====
-- `(I[[DLx;J)V`
use mini_jvm.Common.{◌*◌, ◌%◌, ◌^◌, ◌≡◌, refl, List, [], ◌∷◌, length, arith, ok}
use mini_jvm.Descriptor.{
  skip_arrays, after_semicolon, one_param, method_descriptor_get_param_info, num_size_loop,
  method_get_param_num_size,
}
use mini_jvm.Descriptor.Grammar.{
  int, double, long, JavaType, base, class, array, all_words, descriptor_of, print, print_all,
  descriptor_info-print,
}

abbrev params : List JavaType
params = base int ∷ array (array (base double)) ∷ class (b'x' ∷ []) ∷ base long ∷ []

printed :
    descriptor_of params b'V' (0 ∷ [])
    ≡ b'(' ∷ b'I' ∷ b'[' ∷ b'[' ∷ b'D' ∷ b'L' ∷ b'x' ∷ b';' ∷ b'J' ∷ b')' ∷ b'V' ∷ 0 ∷ []
unfolding print_all print
printed = refl

descriptor_info-print_example :
    (method_descriptor_get_param_info (descriptor_of params b'V' (0 ∷ []))
      ≡ ok (all_words params % 2 ^ 32, b'V'))
    × (method_get_param_num_size (descriptor_of params b'V' (0 ∷ []))
        ≡ ok (length params % 2 ^ 32, 4 * all_words params % 2 ^ 32))
descriptor_info-print_example = descriptor_info-print params b'V' (0 ∷ []) (omega arith)

words_of_params : method_get_param_num_size (descriptor_of params b'V' (0 ∷ [])) ≡ ok (4, 20)
unfolding method_get_param_num_size num_size_loop one_param skip_arrays after_semicolon print_all
    print
words_of_params = refl
