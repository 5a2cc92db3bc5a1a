-- ===== src/Api/Messages.antt =====
-- The texts of frontend/web-app/src/lib/api.ts that are shown to the reader.
use secret_letter.Text.{Text, units}

unfoldable pub consumed_text : Text
consumed_text = units "Liên kết này đã được mở một lần trước đó."

unfoldable pub expired_text : Text
expired_text = units "Lá thư này đã hết hạn."

unfoldable pub not_found_text : Text
not_found_text = units "Không tìm thấy lá thư bí mật nào ở đây."

unfoldable pub invalid_id_text : Text
invalid_id_text = units "Liên kết không hợp lệ hoặc đã bị thiếu ký tự."

unfoldable pub rate_limit_text : Text
rate_limit_text = units "Bạn thao tác hơi nhanh. Hãy thử lại sau ít phút."

unfoldable pub client_text : Text
client_text = units "Yêu cầu không hợp lệ. Hãy kiểm tra lại liên kết và thử lại."

unfoldable pub timeout_text : Text
timeout_text = units "Máy chủ phản hồi quá lâu. Hãy thử lại."

unfoldable pub network_text : Text
network_text = units "Không kết nối được máy chủ. Hãy kiểm tra mạng hoặc thử lại sau."

unfoldable pub server_text : Text
server_text = units "Máy chủ đang gặp sự cố. Hãy thử lại sau."

unfoldable pub cannot_open_text : Text
cannot_open_text = units "Không thể mở lá thư bí mật này."
