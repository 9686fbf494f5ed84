-- ===== src/App/Dispatcher/Texts.antt =====
-- The texts of the answers in app/dispatcher/HttpDispatcher.cpp, in UTF-8.
use mini_reactor.Base.{ℕ, List, [], ◌∷◌}

-- "匿名极客", the nickname of a form that has none.
abbrev pub anonymous : List ℕ
anonymous = 229 ∷ 140 ∷ 191 ∷ 229 ∷ 144 ∷ 141 ∷ 230 ∷ 158 ∷ 129 ∷ 229 ∷ 174 ∷ 162 ∷ []

-- The answer to a body that is no form.
abbrev pub form_only : List ℕ
form_only =
    91 ∷ 231 ∷ 189 ∷ 145 ∷ 229 ∷ 133 ∷ 179 ∷ 230 ∷ 139 ∷ 146 ∷ 231 ∷ 187 ∷ 157 ∷ 93 ∷ 58 ∷ 32 ∷ 231
    ∷ 149 ∷ 153 ∷ 232 ∷ 168 ∷ 128 ∷ 230 ∷ 138 ∷ 149 ∷ 233 ∷ 128 ∷ 146 ∷ 229 ∷ 143 ∷ 170 ∷ 232 ∷ 174
    ∷ 164 ∷ 32 ∷ 117 ∷ 114 ∷ 108 ∷ 101 ∷ 110 ∷ 99 ∷ 111 ∷ 100 ∷ 101 ∷ 100 ∷ 32 ∷ 230 ∷ 160 ∷ 135
    ∷ 229 ∷ 135 ∷ 134 ∷ 232 ∷ 161 ∷ 168 ∷ 229 ∷ 141 ∷ 149 ∷ 230 ∷ 160 ∷ 188 ∷ 229 ∷ 188 ∷ 143 ∷ 239
    ∷ 188 ∷ 129 ∷ []

-- The answer while the cooldown is on.
abbrev pub cooling_down : List ℕ
cooling_down =
    91 ∷ 65 ∷ 73 ∷ 32 ∷ 231 ∷ 134 ∷ 148 ∷ 230 ∷ 150 ∷ 173 ∷ 228 ∷ 191 ∷ 157 ∷ 230 ∷ 138 ∷ 164 ∷ 228
    ∷ 184 ∷ 173 ∷ 93 ∷ 32 ∷ 230 ∷ 156 ∷ 141 ∷ 229 ∷ 138 ∷ 161 ∷ 229 ∷ 153 ∷ 168 ∷ 229 ∷ 189 ∷ 147
    ∷ 229 ∷ 137 ∷ 141 ∷ 233 ∷ 129 ∷ 173 ∷ 233 ∷ 129 ∷ 135 ∷ 233 ∷ 171 ∷ 152 ∷ 229 ∷ 185 ∷ 182 ∷ 229
    ∷ 143 ∷ 145 ∷ 229 ∷ 134 ∷ 178 ∷ 229 ∷ 135 ∷ 187 ∷ 239 ∷ 188 ∷ 140 ∷ 231 ∷ 149 ∷ 153 ∷ 232 ∷ 168
    ∷ 128 ∷ 230 ∷ 157 ∷ 191 ∷ 229 ∷ 183 ∷ 178 ∷ 232 ∷ 191 ∷ 155 ∷ 229 ∷ 133 ∷ 165 ∷ 231 ∷ 180 ∷ 167
    ∷ 230 ∷ 128 ∷ 165 ∷ 229 ∷ 174 ∷ 137 ∷ 229 ∷ 133 ∷ 168 ∷ 229 ∷ 134 ∷ 183 ∷ 229 ∷ 141 ∷ 180 ∷ 230
    ∷ 168 ∷ 161 ∷ 229 ∷ 188 ∷ 143 ∷ 227 ∷ 128 ∷ 130 ∷ []

-- The answer to a blocked nickname, before and behind the nickname.
abbrev pub account_blocked : List ℕ
account_blocked =
    91 ∷ 229 ∷ 174 ∷ 137 ∷ 229 ∷ 133 ∷ 168 ∷ 230 ∷ 139 ∷ 166 ∷ 230 ∷ 136 ∷ 170 ∷ 93 ∷ 58 ∷ 32 ∷ 230
    ∷ 130 ∷ 168 ∷ 231 ∷ 154 ∷ 132 ∷ 232 ∷ 180 ∷ 166 ∷ 229 ∷ 143 ∷ 183 ∷ 239 ∷ 188 ∷ 136 ∷ []

abbrev pub account_blocked_end : List ℕ
account_blocked_end =
    239 ∷ 188 ∷ 137 ∷ 229 ∷ 155 ∷ 160 ∷ 232 ∷ 191 ∷ 157 ∷ 232 ∷ 167 ∷ 132 ∷ 229 ∷ 183 ∷ 178 ∷ 232
    ∷ 162 ∷ 171 ∷ 233 ∷ 153 ∷ 144 ∷ 229 ∷ 136 ∷ 182 ∷ 231 ∷ 149 ∷ 153 ∷ 232 ∷ 168 ∷ 128 ∷ 227 ∷ 128
    ∷ 130 ∷ []

-- The answers to a blocked address and to a keyword, and the default.
abbrev pub address_blocked : List ℕ
address_blocked =
    91 ∷ 229 ∷ 174 ∷ 137 ∷ 229 ∷ 133 ∷ 168 ∷ 230 ∷ 139 ∷ 166 ∷ 230 ∷ 136 ∷ 170 ∷ 93 ∷ 58 ∷ 32 ∷ 230
    ∷ 130 ∷ 168 ∷ 229 ∷ 189 ∷ 147 ∷ 229 ∷ 137 ∷ 141 ∷ 231 ∷ 154 ∷ 132 ∷ 231 ∷ 189 ∷ 145 ∷ 231 ∷ 187
    ∷ 156 ∷ 231 ∷ 142 ∷ 175 ∷ 229 ∷ 162 ∷ 131 ∷ 229 ∷ 155 ∷ 160 ∷ 232 ∷ 191 ∷ 157 ∷ 232 ∷ 167 ∷ 132
    ∷ 229 ∷ 183 ∷ 178 ∷ 232 ∷ 162 ∷ 171 ∷ 233 ∷ 153 ∷ 144 ∷ 229 ∷ 136 ∷ 182 ∷ 231 ∷ 149 ∷ 153 ∷ 232
    ∷ 168 ∷ 128 ∷ 227 ∷ 128 ∷ 130 ∷ []

abbrev pub content_blocked : List ℕ
content_blocked =
    91 ∷ 229 ∷ 174 ∷ 137 ∷ 229 ∷ 133 ∷ 168 ∷ 230 ∷ 139 ∷ 166 ∷ 230 ∷ 136 ∷ 170 ∷ 93 ∷ 58 ∷ 32 ∷ 231
    ∷ 149 ∷ 153 ∷ 232 ∷ 168 ∷ 128 ∷ 229 ∷ 140 ∷ 133 ∷ 229 ∷ 144 ∷ 171 ∷ 232 ∷ 191 ∷ 157 ∷ 231 ∷ 166
    ∷ 129 ∷ 229 ∷ 134 ∷ 133 ∷ 229 ∷ 174 ∷ 185 ∷ 239 ∷ 188 ∷ 140 ∷ 229 ∷ 183 ∷ 178 ∷ 232 ∷ 162 ∷ 171
    ∷ 230 ∷ 139 ∷ 166 ∷ 230 ∷ 136 ∷ 170 ∷ 239 ∷ 188 ∷ 140 ∷ 232 ∷ 175 ∷ 183 ∷ 228 ∷ 191 ∷ 174 ∷ 230
    ∷ 148 ∷ 185 ∷ 229 ∷ 144 ∷ 142 ∷ 233 ∷ 135 ∷ 141 ∷ 232 ∷ 175 ∷ 149 ∷ 227 ∷ 128 ∷ 130 ∷ []

abbrev pub comment_blocked : List ℕ
comment_blocked =
    91 ∷ 229 ∷ 174 ∷ 137 ∷ 229 ∷ 133 ∷ 168 ∷ 230 ∷ 139 ∷ 166 ∷ 230 ∷ 136 ∷ 170 ∷ 93 ∷ 58 ∷ 32 ∷ 231
    ∷ 149 ∷ 153 ∷ 232 ∷ 168 ∷ 128 ∷ 229 ∷ 155 ∷ 160 ∷ 232 ∷ 191 ∷ 157 ∷ 232 ∷ 167 ∷ 132 ∷ 229 ∷ 183
    ∷ 178 ∷ 232 ∷ 162 ∷ 171 ∷ 230 ∷ 139 ∷ 166 ∷ 230 ∷ 136 ∷ 170 ∷ 227 ∷ 128 ∷ 130 ∷ []

-- The answer to a comment that is stored.
abbrev pub stored_text : List ℕ
stored_text = 229 ∷ 134 ∷ 153 ∷ 229 ∷ 133 ∷ 165 ∷ 230 ∷ 136 ∷ 144 ∷ 229 ∷ 138 ∷ 159 ∷ []

-- The body for a path with "..".
abbrev pub traversal : List ℕ
traversal =
    123 ∷ 34 ∷ 101 ∷ 114 ∷ 114 ∷ 111 ∷ 114 ∷ 34 ∷ 58 ∷ 34 ∷ 91 ∷ 231 ∷ 189 ∷ 145 ∷ 229 ∷ 133 ∷ 179
    ∷ 231 ∷ 137 ∷ 169 ∷ 231 ∷ 144 ∷ 134 ∷ 230 ∷ 139 ∷ 166 ∷ 230 ∷ 136 ∷ 170 ∷ 93 ∷ 58 ∷ 32 ∷ 230
    ∷ 163 ∷ 128 ∷ 230 ∷ 181 ∷ 139 ∷ 229 ∷ 136 ∷ 176 ∷ 233 ∷ 157 ∷ 158 ∷ 230 ∷ 179 ∷ 149 ∷ 232 ∷ 183
    ∷ 175 ∷ 229 ∷ 190 ∷ 132 ∷ 231 ∷ 169 ∷ 191 ∷ 232 ∷ 182 ∷ 138 ∷ 229 ∷ 176 ∷ 157 ∷ 232 ∷ 175 ∷ 149
    ∷ 239 ∷ 188 ∷ 129 ∷ 229 ∷ 183 ∷ 178 ∷ 229 ∷ 176 ∷ 134 ∷ 230 ∷ 130 ∷ 168 ∷ 231 ∷ 154 ∷ 132 ∷ 32
    ∷ 73 ∷ 80 ∷ 32 ∷ 232 ∷ 174 ∷ 176 ∷ 229 ∷ 189 ∷ 149 ∷ 229 ∷ 156 ∷ 168 ∷ 230 ∷ 161 ∷ 136 ∷ 227
    ∷ 128 ∷ 130 ∷ 34 ∷ 125 ∷ []

-- The page for a missing file, before and behind its path.
abbrev pub not_found : List ℕ
not_found =
    60 ∷ 104 ∷ 116 ∷ 109 ∷ 108 ∷ 62 ∷ 60 ∷ 104 ∷ 101 ∷ 97 ∷ 100 ∷ 62 ∷ 60 ∷ 116 ∷ 105 ∷ 116 ∷ 108
    ∷ 101 ∷ 62 ∷ 52 ∷ 48 ∷ 52 ∷ 60 ∷ 47 ∷ 116 ∷ 105 ∷ 116 ∷ 108 ∷ 101 ∷ 62 ∷ 60 ∷ 47 ∷ 104 ∷ 101
    ∷ 97 ∷ 100 ∷ 62 ∷ 60 ∷ 98 ∷ 111 ∷ 100 ∷ 121 ∷ 32 ∷ 115 ∷ 116 ∷ 121 ∷ 108 ∷ 101 ∷ 61 ∷ 39 ∷ 98
    ∷ 97 ∷ 99 ∷ 107 ∷ 103 ∷ 114 ∷ 111 ∷ 117 ∷ 110 ∷ 100 ∷ 58 ∷ 35 ∷ 49 ∷ 49 ∷ 49 ∷ 59 ∷ 32 ∷ 99
    ∷ 111 ∷ 108 ∷ 111 ∷ 114 ∷ 58 ∷ 35 ∷ 102 ∷ 102 ∷ 51 ∷ 51 ∷ 51 ∷ 51 ∷ 59 ∷ 32 ∷ 102 ∷ 111 ∷ 110
    ∷ 116 ∷ 45 ∷ 102 ∷ 97 ∷ 109 ∷ 105 ∷ 108 ∷ 121 ∷ 58 ∷ 109 ∷ 111 ∷ 110 ∷ 111 ∷ 115 ∷ 112 ∷ 97 ∷ 99
    ∷ 101 ∷ 59 ∷ 32 ∷ 112 ∷ 97 ∷ 100 ∷ 100 ∷ 105 ∷ 110 ∷ 103 ∷ 58 ∷ 53 ∷ 48 ∷ 112 ∷ 120 ∷ 59 ∷ 39
    ∷ 62 ∷ 60 ∷ 104 ∷ 49 ∷ 62 ∷ 240 ∷ 159 ∷ 154 ∷ 168 ∷ 32 ∷ 91 ∷ 77 ∷ 105 ∷ 110 ∷ 105 ∷ 45 ∷ 82
    ∷ 101 ∷ 97 ∷ 99 ∷ 116 ∷ 111 ∷ 114 ∷ 32 ∷ 230 ∷ 138 ∷ 165 ∷ 233 ∷ 148 ∷ 153 ∷ 93 ∷ 58 ∷ 32 ∷ 52
    ∷ 48 ∷ 52 ∷ 32 ∷ 232 ∷ 181 ∷ 132 ∷ 230 ∷ 186 ∷ 144 ∷ 230 ∷ 156 ∷ 170 ∷ 230 ∷ 137 ∷ 190 ∷ 229
    ∷ 136 ∷ 176 ∷ 239 ∷ 188 ∷ 129 ∷ 60 ∷ 47 ∷ 104 ∷ 49 ∷ 62 ∷ 60 ∷ 112 ∷ 62 ∷ 231 ∷ 137 ∷ 169 ∷ 231
    ∷ 144 ∷ 134 ∷ 231 ∷ 163 ∷ 129 ∷ 231 ∷ 155 ∷ 152 ∷ 232 ∷ 183 ∷ 175 ∷ 229 ∷ 190 ∷ 132 ∷ 228 ∷ 184
    ∷ 141 ∷ 229 ∷ 173 ∷ 152 ∷ 229 ∷ 156 ∷ 168 ∷ 58 ∷ 32 ∷ []

abbrev pub not_found_end : List ℕ
not_found_end =
    60 ∷ 47 ∷ 112 ∷ 62 ∷ 60 ∷ 47 ∷ 98 ∷ 111 ∷ 100 ∷ 121 ∷ 62 ∷ 60 ∷ 47 ∷ 104 ∷ 116 ∷ 109 ∷ 108 ∷ 62
    ∷ []

-- The answers to a request to reload the blacklist.
abbrev pub not_admin : List ℕ
not_admin =
    230 ∷ 138 ∷ 177 ∷ 230 ∷ 173 ∷ 137 ∷ 239 ∷ 188 ∷ 140 ∷ 233 ∷ 157 ∷ 158 ∷ 231 ∷ 174 ∷ 161 ∷ 231
    ∷ 144 ∷ 134 ∷ 231 ∷ 148 ∷ 168 ∷ 230 ∷ 136 ∷ 183 ∷ 230 ∷ 151 ∷ 160 ∷ 230 ∷ 179 ∷ 149 ∷ 228 ∷ 191
    ∷ 174 ∷ 230 ∷ 148 ∷ 185 ∷ 233 ∷ 187 ∷ 145 ∷ 229 ∷ 144 ∷ 141 ∷ 229 ∷ 141 ∷ 149 ∷ 33 ∷ 32 ∷ []

abbrev pub reloaded : List ℕ
reloaded =
    233 ∷ 187 ∷ 145 ∷ 229 ∷ 144 ∷ 141 ∷ 229 ∷ 141 ∷ 149 ∷ 232 ∷ 167 ∷ 132 ∷ 229 ∷ 136 ∷ 153 ∷ 229
    ∷ 183 ∷ 178 ∷ 230 ∷ 136 ∷ 144 ∷ 229 ∷ 138 ∷ 159 ∷ 231 ∷ 131 ∷ 173 ∷ 229 ∷ 138 ∷ 160 ∷ 232 ∷ 189
    ∷ 189 ∷ 232 ∷ 135 ∷ 179 ∷ 229 ∷ 134 ∷ 133 ∷ 229 ∷ 173 ∷ 152 ∷ 239 ∷ 188 ∷ 129 ∷ []
